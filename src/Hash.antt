-- ===== src/Hash.antt =====
-- source/hash.c: the chained hash table.
-- A pointer is an address, and `memory` holds the bytes of the structures that are stored; the
-- entries of a bucket are a list. `compare` stands for the function behind `table->cmpsym`.
pub mod Key
pub mod Create
pub mod Occurs
pub mod Placed
pub mod Adds
pub mod Insert
pub mod Delete
pub mod Find
pub mod Reads
use ithildin.Base.{
  ℕ, zero, suc, ◌+◌, ◌-◌, ◌*◌, ◌/◌, ◌%◌, ◌^◌, Bool, true, false, ◌&&◌, Option, none, some, List, [],
  ◌∷◌, ◌++◌, ltb, leb, ◌==◌, if◌then◌else◌, u32, get_or, set, replicate, ℤ, is_zero,
}
use ithildin.Hash.Key.{Memory, length_at, Flags, full_hash, bucket_of}

-- `struct hashent`
pub record Hashent : Type 0 where
  pub ent : ℕ
  pub hv : ℕ

abbrev pub Bucket : Type 0
Bucket = List Hashent

-- `struct hashtable`, without the counters of DEBUG_CODE.
pub record Table : Type 0 where
  pub size : ℕ
  pub entries : ℕ
  pub table : List Bucket
  pub keyoffset : ℕ
  pub keylen : ℕ
  pub flags : Flags

abbrev max_elems : ℕ
max_elems = 2 ^ 31

-- while (real_elems < elems) real_elems <<= 1;
unfoldable pub double_until : ℕ → ℕ → ℕ → ℕ
double_until zero elems real = real
double_until (suc fuel) elems real =
    let next = double_until fuel elems (real * 2 % u32) in if ltb real elems then next else real

-- The number of buckets for a request, if it can be fulfilled.
unfoldable pub real_elems : ℕ → Option ℕ
real_elems elems =
    let real = double_until 32 elems 0x80 in
    if ltb max_elems elems then none else some (if ltb elems real then real / 2 else real)

unfoldable pub create_hash_table : ℕ → ℕ → ℕ → Flags → Option Table
create_hash_table elems offset len flags = elim (real_elems elems) [
  | none ↦ none
  | some n ↦ some (record {
    size = n;
    entries = 0;
    table = replicate n [];
    keyoffset = offset;
    keylen = len;
    flags = flags;
  })
]

-- The walk of `resize_hash_table` over one old bucket, and over all of them.
rehash_bucket : (Table → ℕ → Option Table) → Bucket → Table → Option Table
rehash_bucket insert [] t = some t
rehash_bucket insert (hep ∷ bucket) t = elim (insert t hep.ent) [
  | none ↦ none
  | some t' ↦ rehash_bucket insert bucket t'
]

rehash : (Table → ℕ → Option Table) → List Bucket → Table → Option Table
unfolding rehash_bucket
rehash insert [] t = some t
rehash insert (bucket ∷ old) t = elim (rehash_bucket insert bucket t) [
  | none ↦ none
  | some t' ↦ rehash insert old t'
]

unfoldable pub resize_hash_table : (Table → ℕ → Option Table) → Table → ℕ → Option Table
unfolding rehash
resize_hash_table insert t elems =
    rehash insert t.table (record t { size = elems; entries = 0; table = replicate elems [] })

-- `SLIST_REMOVE` of the first entry that holds the pointer.
unfoldable pub remove_ent : ℕ → Bucket → Bucket
remove_ent p [] = []
remove_ent p (hep ∷ bucket) = if hep.ent == p then bucket else hep ∷ remove_ent p bucket

unfoldable pub holds_ent : ℕ → Bucket → Bool
holds_ent p [] = false
holds_ent p (hep ∷ bucket) = if hep.ent == p then true else holds_ent p bucket

module _ (compare : ℕ → ℕ → ℕ → ℤ) where
  abbrev pub equal_keys : Table → ℕ → ℕ → Bool
  equal_keys t p key = is_zero (compare (p + t.keyoffset) key t.keylen)

  find_in : Table → ℕ → ℕ → Bucket → Option ℕ
  find_in t hash key [] = none
  find_in t hash key (hep ∷ bucket) =
      if hep.hv == hash && equal_keys t hep.ent key then some hep.ent else find_in t hash key bucket

module _ (memory : Memory) where
  unfoldable pub hash_get_key_hash : Table → ℕ → ℕ → ℕ
  hash_get_key_hash t key offset =
      let at = key + offset in
      bucket_of t.size
        (full_hash t.flags t.keylen (length_at memory at) (λ i. memory.byte (at + i)))

  -- `hash_insert` up to the test of the load.
  unfoldable pub add_entry : Table → ℕ → Table
  add_entry t p =
      let hash = hash_get_key_hash t p t.keyoffset in
      let hep : Hashent = record { ent = p; hv = hash } in
      let bucket = get_or t.table hash [] in
      record t {
        entries = (t.entries + 1) % u32;
        table =
            set t.table hash (if t.flags.insert_tail then bucket ++ (hep ∷ []) else hep ∷ bucket);
      }

  -- The calls of `hash_insert` and `resize_hash_table` nest; `none` is fuel run out.
  unfoldable pub hash_insert : ℕ → Table → ℕ → Option Table
  unfolding add_entry resize_hash_table
  hash_insert zero t p = none
  hash_insert (suc fuel) t p =
      let t' = add_entry t p in
      let grown = resize_hash_table (hash_insert fuel) t' (t'.size * 2 % u32) in
      if leb (t'.size * 6 % u32 / 5) t'.entries then grown else some t'

  unfoldable pub hash_delete : Table → ℕ → Bool × Table
  unfolding remove_ent holds_ent
  hash_delete t p =
      let hash = hash_get_key_hash t p t.keyoffset in
      let bucket = get_or t.table hash [] in
      if holds_ent p bucket
      then (
        true,
        record t {
          entries = (t.entries + u32 - 1) % u32;
          table = set t.table hash (remove_ent p bucket);
        },
      )
      else (false, t)

  unfoldable pub hash_find : (ℕ → ℕ → ℕ → ℤ) → Table → ℕ → Option ℕ
  unfolding find_in
  hash_find compare t key =
      let hash = hash_get_key_hash t key 0 in find_in compare t hash key (get_or t.table hash [])
