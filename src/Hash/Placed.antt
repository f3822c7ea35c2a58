-- ===== src/Hash/Placed.antt =====
-- Every entry stands in the bucket that its key hashes to, and carries that index.
use ithildin.Base.{
  length, ◌*◌, ◌/◌, ◌^◌, ◌≤◌, ℕ, zero, suc, ◌+◌, ◌*◌, ◌/◌, ◌^◌, ◌≤◌, ◌<◌, ◌≡◌, ◌≢◌, refl, inl, inr,
  List, [], ◌∷◌, arith, ◌==◌, Bool-cases, length, get_or, set, replicate, All,
}
use ithildin.Hash.Key.{Memory}
use ithildin.Hash.{Bucket, Table, hash_get_key_hash, remove_ent}
use ithildin.Hash.Occurs.{count, count_in, total}

-- The bucket of a stored pointer.
abbrev pub home : Memory → Table → ℕ → ℕ
home memory t p = hash_get_key_hash memory t p t.keyoffset

module _ (home_of : ℕ → ℕ) where
  abbrev pub IsHome : ℕ → Bucket → Type 0
  IsHome i = All (λ hep. (hep.hv ≡ i) × (home_of hep.ent ≡ i))

  -- The buckets are those from index `i` on.
  abbrev pub IsPlaced : ℕ → List Bucket → Type 0
  IsPlaced i [] = Unit
  IsPlaced i (b ∷ bs) = IsHome i b × IsPlaced (suc i) bs

  pub IsPlaced-get_or :
      (i j : ℕ) (bs : List Bucket) → IsPlaced i bs → IsHome (i + j) (get_or bs j [])
  IsPlaced-get_or i j [] h = tt
  IsPlaced-get_or i zero (b ∷ bs) h = let e : i + 0 ≡ i = omega arith in rw e h.0
  IsPlaced-get_or i (suc j) (b ∷ bs) h =
      let e : i + suc j ≡ suc i + j = omega arith in rw e (IsPlaced-get_or (suc i) j bs h.1)

  pub IsPlaced-set :
      (i j : ℕ) (bs : List Bucket) (b : Bucket)
      → IsPlaced i bs
      → IsHome (i + j) b
      → IsPlaced i (set bs j b)
  IsPlaced-set i j [] b h k = tt
  IsPlaced-set i zero (c ∷ bs) b h k = let e : i + 0 ≡ i = omega arith in (rw e at k, h.1)
  IsPlaced-set i (suc j) (c ∷ bs) b h k =
      let e : i + suc j ≡ suc i + j = omega arith in
      (h.0, IsPlaced-set (suc i) j bs b h.1 (rw e at k))

  pub IsPlaced-replicate : (i n : ℕ) → IsPlaced i (replicate n [])
  IsPlaced-replicate i zero = tt
  IsPlaced-replicate i (suc n) = (tt, IsPlaced-replicate (suc i) n)

  pub IsHome-remove_ent : (i p : ℕ) (b : Bucket) → IsHome i b → IsHome i (remove_ent p b)
  unfolding remove_ent
  IsHome-remove_ent i p [] h = tt
  IsHome-remove_ent i p (hep ∷ b) h = elim (Bool-cases (hep.ent == p)) [
    | inl e ↦ rw e h.1
    | inr e ↦ rw e (h.0, IsHome-remove_ent i p b h.1)
  ]

-- A pointer with another home is not in the bucket.
IsHome-elsewhere :
    (home_of : ℕ → ℕ) (i q : ℕ) (b : Bucket) → IsHome home_of i b → home_of q ≢ i → count_in q b ≡ 0
unfolding count_in
IsHome-elsewhere home_of i q [] h n = refl
IsHome-elsewhere home_of i q (hep ∷ b) h n = ground (arith, IsHome-elsewhere home_of i q b h.1 n)

-- What holds of a table at each moment, in a resize too. The bound on the size keeps the products
-- of the load test within 32 bits.
pub record IsSound (memory : Memory) (t : Table) : Type 0 where
  pub width : length t.table ≡ t.size
  pub nonempty : 0 < t.size
  pub bounded : t.size ≤ 2 ^ 29
  pub counted : t.entries ≡ total t.table
  pub placed : IsPlaced (home memory t) 0 t.table

-- And between operations: the load is below six fifths.
pub record IsValid (memory : Memory) (t : Table) : Type 0 where
  pub sound : IsSound memory t
  pub load : t.entries < t.size * 6 / 5

-- The settings of a table, which no operation changes.
pub record SameSettings (s t : Table) : Type 0 where
  pub keyoffset : t.keyoffset ≡ s.keyoffset
  pub keylen : t.keylen ≡ s.keylen
  pub flags : t.flags ≡ s.flags

module _ (home_of : ℕ → ℕ) (q : ℕ) where
  count_below : (i : ℕ) (bs : List Bucket) → IsPlaced home_of i bs → home_of q < i → count q bs ≡ 0
  unfolding count
  count_below i [] h k = refl
  count_below i (b ∷ bs) h k = omega (
    arith,
    IsHome-elsewhere home_of i q b h.0 (omega arith),
    count_below (suc i) bs h.1 (omega arith),
  )

  -- All the entries of a pointer are in its home bucket.
  pub count-home :
      (i j : ℕ) (bs : List Bucket)
      → IsPlaced home_of i bs
      → home_of q ≡ i + j
      → count q bs ≡ count_in q (get_or bs j [])
  unfolding count count_in
  count-home i j [] h e = refl
  count-home i zero (b ∷ bs) h e = omega (arith, count_below (suc i) bs h.1 (omega arith))
  count-home i (suc j) (b ∷ bs) h e = omega (
    arith,
    IsHome-elsewhere home_of i q b h.0 (omega arith),
    count-home (suc i) j bs h.1 (omega arith),
  )
