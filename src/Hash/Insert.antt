-- ===== src/Hash/Insert.antt =====
-- `hash_insert` and `resize_hash_table`.
use ithildin.Base.{
  ℕ, suc, ◌+◌, ◌*◌, ◌/◌, ◌%◌, ◌^◌, ◌≤◌, ◌<◌, ◌≡◌, refl, sym, ◌∙◌, ◌⊎◌, inl, inr, true, false, some,
  List, [], ◌∷◌, arith, leb, ◌==◌, Bool-cases, u32, length, replicate, length-replicate,
}
use ithildin.Hash.Key.{Memory}
use ithildin.Hash.{Bucket, Table, add_entry, rehash_bucket, rehash, resize_hash_table, hash_insert}
use ithildin.Hash.Occurs.{one_if, count_in, count, total, count-replicate}
use ithildin.Hash.Placed.{home, IsPlaced-replicate, IsSound, IsValid, SameSettings}
use ithildin.Hash.Adds.{Adds, add_entry-Adds, Adds-trans, Adds-cast, Adds-refl}

module _ (memory : Memory) where
  insert_below :
      (fuel : ℕ) (t : Table) (p : ℕ)
      → IsSound memory t
      → t.entries + 1 < t.size * 6 / 5
      → hash_insert memory (suc fuel) t p ≡ some (add_entry memory t p)
  unfolding hash_insert
  insert_below fuel t p s h =
      let a = add_entry-Adds memory t p s (omega (arith, s.bounded)) in
      rw (not_full (add_entry memory t p) (rw (a.size, a.entries) (s.bounded, h)))
    where
      not_full :
          (u : Table)
          → (u.size ≤ 2 ^ 29) × (u.entries < u.size * 6 / 5)
          → leb (u.size * 6 % u32 / 5) u.entries ≡ false
      not_full u h = ground arith

  rehash_bucket-Adds :
      (fuel : ℕ) (b : Bucket) (t : Table)
      → IsSound memory t
      → t.entries + length b < t.size * 6 / 5
      → (u : Table) × (rehash_bucket (hash_insert memory (suc fuel)) b t ≡ some u)
        × Adds memory t (length b) (λ q. count_in q b) u
  unfolding rehash_bucket count_in
  rehash_bucket-Adds fuel [] t s h = (t, refl, Adds-refl memory t s)
  rehash_bucket-Adds fuel (hep ∷ b) t s h =
      let p = hep.ent in
      let a = add_entry-Adds memory t p s (omega (arith, s.bounded)) in
      let room : (add_entry memory t p).entries + length b < (add_entry memory t p).size * 6 / 5 =
        rw (a.size, a.entries) (omega arith) in
      let (u, run, adds) = rehash_bucket-Adds fuel b (add_entry memory t p) a.sound room in
      (
        u,
        rw (insert_below fuel t p s (omega arith), rehash_bucket) run,
        Adds-cast memory (omega arith) (λ q. omega arith) (Adds-trans memory a adds),
      )

  rehash-Adds :
      (fuel : ℕ) (bs : List Bucket) (t : Table)
      → IsSound memory t
      → t.entries + total bs < t.size * 6 / 5
      → (u : Table) × (rehash (hash_insert memory (suc fuel)) bs t ≡ some u)
        × Adds memory t (total bs) (λ q. count q bs) u
  unfolding rehash count total
  rehash-Adds fuel [] t s h = (t, refl, Adds-refl memory t s)
  rehash-Adds fuel (b ∷ bs) t s h =
      let (u, run, a) = rehash_bucket-Adds fuel b t s (omega arith) in
      let (v, run', a') = rehash-Adds fuel bs u a.sound (rw (a.size, a.entries) (omega arith)) in
      (v, rw (run, rehash) run', Adds-trans memory a a')

  -- A resize keeps every entry as often as it was, in a table of the new size.
  resize-Adds :
      (fuel : ℕ) (t : Table) (elems : ℕ)
      → 0 < elems
      → elems ≤ 2 ^ 29
      → total t.table < elems * 6 / 5
      → (u : Table) × (resize_hash_table (hash_insert memory (suc fuel)) t elems ≡ some u)
        × IsSound memory u
        × SameSettings t u
        × (u.size ≡ elems)
        × (u.entries ≡ total t.table)
        × ((q : ℕ) → count q u.table ≡ count q t.table)
  unfolding resize_hash_table
  resize-Adds fuel t elems h k room =
      let empty : Table = record t { size = elems; entries = 0; table = replicate elems [] } in
      let sound : IsSound memory empty = record {
        width = length-replicate elems [];
        nonempty = h;
        bounded = k;
        counted = sym (count-replicate 0 elems).1;
        placed = IsPlaced-replicate (home memory empty) 0 elems;
      } in
      let (u, run, a) = rehash-Adds fuel t.table empty sound (omega arith) in
      (
        u,
        run,
        a.sound,
        record {
          keyoffset = a.settings.keyoffset;
          keylen = a.settings.keylen;
          flags = a.settings.flags;
        },
        a.size,
        omega (arith, a.entries),
        λ q. omega (arith, a.counts q, count-replicate q elems),
      )

  -- At the load that makes the table grow, the call ends with the resize.
  insert_full :
      (t : Table) (p : ℕ)
      → leb ((add_entry memory t p).size * 6 % u32 / 5) (add_entry memory t p).entries ≡ true
      → hash_insert memory 2 t p
        ≡ resize_hash_table
            (hash_insert memory 1)
            (add_entry memory t p)
            ((add_entry memory t p).size * 2 % u32)
  unfolding hash_insert
  insert_full t p full = rw full

  -- On a valid table of at most 2 ^ 28 buckets, `hash_insert` ends with no more than one resize
  -- inside it, and leaves a valid table with the same settings, as many buckets or twice as many,
  -- and one more entry, which is the inserted pointer.
  pub hash_insert_lem :
      (t : Table) (p : ℕ)
      → IsValid memory t
      → t.size ≤ 2 ^ 28
      → (u : Table) × (hash_insert memory 2 t p ≡ some u)
        × IsValid memory u
        × SameSettings t u
        × ((u.size ≡ t.size) ⊎ (u.size ≡ 2 * t.size))
        × (u.entries ≡ t.entries + 1)
        × ((q : ℕ) → count q u.table ≡ count q t.table + one_if (p == q))
  unfolding hash_insert
  hash_insert_lem t p v h =
      let a = add_entry-Adds memory t p v.sound (omega (arith, v.sound.bounded, v.load)) in
      let t' = add_entry memory t p in
      let twice : t'.size * 2 % u32 ≡ 2 * t.size = rw a.size (omega arith) in
      elim (Bool-cases (leb (t'.size * 6 % u32 / 5) t'.entries)) [
        | inl full ↦
            let (u, run, sound, same, size, entries, counts) =
              resize-Adds 0 t' (t'.size * 2 % u32) (rw twice (omega (arith, v.sound.nonempty)))
                (rw twice (omega arith))
                (rw (twice, ← a.sound.counted, a.entries)
                  (omega (arith, v.load, v.sound.nonempty))) in
            (
              u,
              insert_full t p full ∙ run,
              record {
                sound = sound;
                load = omega (
                  arith, size, twice, entries, a.sound.counted, a.entries, v.load, v.sound.nonempty,
                );
              },
              record {
                keyoffset = same.keyoffset ∙ a.settings.keyoffset;
                keylen = same.keylen ∙ a.settings.keylen;
                flags = same.flags ∙ a.settings.flags;
              },
              inr (size ∙ twice),
              entries ∙ sym a.sound.counted ∙ a.entries,
              λ q. counts q ∙ a.counts q,
            )
        | inr room ↦ (
          t',
          rw room,
          record { sound = a.sound; load = below t' (a.sound.bounded) room },
          a.settings,
          inl a.size,
          a.entries,
          a.counts,
        )
      ]
    where
      below :
          (u : Table)
          → u.size ≤ 2 ^ 29
          → leb (u.size * 6 % u32 / 5) u.entries ≡ false
          → u.entries < u.size * 6 / 5
      below u k e = ground arith
