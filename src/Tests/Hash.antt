-- ===== src/Tests/Hash.antt =====
-- source/hash.c at a table of 64 buckets whose keys are single bytes.
use ithildin.Base.{
  ℕ, ◌+◌, ◌-◌, ◌*◌, ◌%◌, ◌≡◌, ltb, refl, sym, ◌⊎◌, true, false, some, List, [], arith, ◌==◌,
  if◌then◌else◌, replicate, length-replicate, ℤ, pos,
}
use mathlib.Core.Path.{fun_ext}
use ithildin.Hash.Key.{Memory, length_at, IsStrlen, Flags, key_length, full_hash, bucket_of}
use ithildin.Hash.{
  Table, Hashent, create_hash_table, hash_get_key_hash, add_entry, hash_insert, hash_delete,
  hash_find,
}
use ithildin.Hash.Occurs.{one_if, count, count-replicate}
use ithildin.Hash.Placed.{home, IsPlaced-replicate, IsSound, IsValid, SameSettings}
use ithildin.Hash.Adds.{add_entry-Adds}
use ithildin.Hash.Insert.{hash_insert_lem}
use ithildin.Hash.Delete.{Deletes, hash_delete-Deletes}
use ithildin.Hash.Find.{Answers, hash_find-Answers}
use ithildin.Hash.Reads.{hash_get_key_hash_cong}
use ithildin.Hash.Create.{Rounded, create_hash_table-IsValid}

abbrev pub memory : Memory
memory = record { byte = λ i. i % 200; strlen = λ bytes i. (200 - i % 200) % 200 }

abbrev pub flags : Flags
flags = record { nocase = false; string = false; insert_tail = true }

abbrev pub empty : Table
empty = record {
  size = 64;
  entries = 0;
  table = replicate 64 [];
  keyoffset = 0;
  keylen = 1;
  flags = flags;
}

empty-IsSound : IsSound memory empty
empty-IsSound = record {
  width = length-replicate {A = List Hashent} 64 [];
  nonempty = omega arith;
  bounded = omega arith;
  counted = sym (count-replicate 0 64).1;
  placed = IsPlaced-replicate (home memory empty) 0 64;
}

abbrev pub one_entry : Table
one_entry = add_entry memory empty 305

pub one_entry-IsValid : IsValid memory one_entry
one_entry-IsValid =
    let a = add_entry-Adds memory empty 305 empty-IsSound (omega arith) in
    record { sound = a.sound; load = omega (arith, a.size, a.entries) }

pub one_entry-count : (q : ℕ) → count q one_entry.table ≡ one_if (305 == q)
one_entry-count q =
    let a = add_entry-Adds memory empty 305 empty-IsSound (omega arith) in
    omega (arith, a.counts q, (count-replicate q 64).0)

create_hash_table-IsValid_example :
    (t : Table) × (create_hash_table 1000 0 1 flags ≡ some t)
    × IsValid memory t
    × Rounded 1000 t.size
    × (t.keyoffset ≡ 0)
    × (t.keylen ≡ 1)
    × (t.flags ≡ flags)
    × (t.entries ≡ 0)
    × ((q : ℕ) → count q t.table ≡ 0)
create_hash_table-IsValid_example = create_hash_table-IsValid memory 1000 0 1 flags (omega arith)

hash_insert_lem_example :
    (u : Table) × (hash_insert memory 2 one_entry 7 ≡ some u)
    × IsValid memory u
    × SameSettings one_entry u
    × ((u.size ≡ one_entry.size) ⊎ (u.size ≡ 2 * one_entry.size))
    × (u.entries ≡ one_entry.entries + 1)
    × ((q : ℕ) → count q u.table ≡ count q one_entry.table + one_if (7 == q))
hash_insert_lem_example =
    hash_insert_lem memory one_entry 7 one_entry-IsValid
      (rw (add_entry-Adds memory empty 305 empty-IsSound (omega arith)).size (omega arith))

hash_delete-Deletes_example :
    Deletes memory one_entry 305
      (hash_delete memory one_entry 305).0
      (hash_delete memory one_entry 305).1
hash_delete-Deletes_example = hash_delete-Deletes memory one_entry 305 one_entry-IsValid

-- The comparison of one byte.
abbrev compare_byte : ℕ → ℕ → ℕ → ℤ
compare_byte p q n = if memory.byte p == memory.byte q then pos 0 else pos 1

bucket_of_byte :
    (p q : ℕ)
    → memory.byte p ≡ memory.byte q
    → hash_get_key_hash memory one_entry p 0 ≡ hash_get_key_hash memory one_entry q 0
unfolding hash_get_key_hash
bucket_of_byte p q e =
    same_bucket {n = length_at memory (p + 0)} {n' = length_at memory (q + 0)} (omega (arith, e))
      (fun_ext (λ i. omega arith))
  where
    same_bucket :
        {n n' : ℕ} {byte byte' : ℕ → ℕ}
        → n ≡ n'
        → byte ≡ byte'
        → bucket_of one_entry.size (full_hash one_entry.flags one_entry.keylen n byte)
          ≡ bucket_of one_entry.size (full_hash one_entry.flags one_entry.keylen n' byte')
    same_bucket l b i =
        bucket_of one_entry.size (full_hash one_entry.flags one_entry.keylen (l i) (b i))

hash_find-Answers_example :
    Answers compare_byte one_entry 105
      (λ q. count q one_entry.table)
      (hash_find memory compare_byte one_entry 105)
unfolding add_entry
hash_find-Answers_example =
    hash_find-Answers memory compare_byte one_entry 105 one_entry-IsValid
      (λ p e. bucket_of_byte p 105 (ground (arith, e)))

-- Two strings of sixteen bytes, at 0 and 20, that differ at offset 4 only.
abbrev strings : Memory
strings = record {
  byte = λ i. if i == 24 then 99 else if ltb (i % 20) 16 then i % 20 + 1 else 0;
  strlen = λ bytes i. 16 - i % 20;
}

abbrev table_of_strings : Table
table_of_strings = record empty {
  keylen = 20;
  flags = record { nocase = false; string = true; insert_tail = true };
}

ends_at_16 : IsStrlen strings (0 + 0)
ends_at_16 = record { ends = refl; before = λ i l. ground arith }

ends_at_36 : IsStrlen strings (20 + 0)
ends_at_36 = record { ends = refl; before = λ i l. ground arith }

hash_get_key_hash_cong_example :
    hash_get_key_hash strings table_of_strings 0 0 ≡ hash_get_key_hash strings table_of_strings 20 0
unfolding key_length
hash_get_key_hash_cong_example =
    hash_get_key_hash_cong strings table_of_strings 0 20 0 16 refl ends_at_16 ends_at_36
      (omega arith) (omega arith) refl refl (λ i l q. ground (arith, q))
      (λ e z. absurd (omega arith))
