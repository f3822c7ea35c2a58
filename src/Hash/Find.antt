-- ===== src/Hash/Find.antt =====
-- `hash_find`.
use ithildin.Base.{
  ℕ, ◌+◌, ◌<◌, ◌≡◌, ap, inl, inr, true, false, Option, none, some, [], ◌∷◌, arith, ◌==◌, ==_iff,
  ==_refl, Bool-cases, get_or, ℤ,
}
use ithildin.Hash.Key.{Memory}
use ithildin.Hash.{Hashent, Bucket, Table, hash_get_key_hash, equal_keys, find_in, hash_find}
use ithildin.Hash.Occurs.{count_in-le-count, count_in, count}
use ithildin.Hash.Placed.{home, IsHome, IsPlaced-get_or, count-home, IsValid}

-- What a search of entries, held as often as `n` says, answers: a pointer among them with an equal
-- key, or that no pointer among them has one.
abbrev pub Answers : (ℕ → ℕ → ℕ → ℤ) → Table → ℕ → (ℕ → ℕ) → Option ℕ → Type 0
Answers compare t key n (some p) = (0 < n p) × (equal_keys compare t p key ≡ true)
Answers compare t key n none = (q : ℕ) → 0 < n q → equal_keys compare t q key ≡ false

count_in_head : (hep : Hashent) (b : Bucket) → 0 < count_in hep.ent (hep ∷ b)
unfolding count_in
count_in_head hep b = ground arith

module _ (compare : ℕ → ℕ → ℕ → ℤ) (t : Table) (key : ℕ) where
  Answers-skip :
      (hep : Hashent) (b : Bucket) (r : Option ℕ)
      → equal_keys compare t hep.ent key ≡ false
      → Answers compare t key (λ q. count_in q b) r
      → Answers compare t key (λ q. count_in q (hep ∷ b)) r
  unfolding count_in
  Answers-skip hep b (some p) e a = (omega (arith, a.0), a.1)
  Answers-skip hep b none e a = λ q h. elim (Bool-cases (hep.ent == q)) [
    | inl s ↦ rw (← (==_iff hep.ent q).0 s) e
    | inr n ↦ a q (let k = rw n at h in omega arith)
  ]

  find_in-Answers :
      (home_of : ℕ → ℕ) (hash : ℕ) (b : Bucket)
      → IsHome home_of hash b
      → Answers compare t key (λ q. count_in q b) (find_in compare t hash key b)
  unfolding find_in
  find_in-Answers home_of hash [] h = λ q k. absurd (unfold count_in in omega arith)
  find_in-Answers home_of hash (hep ∷ b) h = elim (Bool-cases (equal_keys compare t hep.ent key)) [
    | inl e ↦ rw (ap (λ n. n == hash) h.0.0, ==_refl hash, e) (count_in_head hep b, e)
    | inr e ↦
        rw (ap (λ n. n == hash) h.0.0, ==_refl hash, e)
          (Answers-skip hep b _ e (find_in-Answers home_of hash b h.1))
  ]

module _ (memory : Memory) (compare : ℕ → ℕ → ℕ → ℤ) (t : Table) (key : ℕ)
    (v : IsValid memory t) where
  abbrev bucket : Bucket
  bucket = get_or t.table (hash_get_key_hash memory t key 0) []

  -- From the bucket to the whole table.
  Answers-whole :
      (r : Option ℕ)
      → ((p : ℕ)
          → equal_keys compare t p key ≡ true
          → home memory t p ≡ hash_get_key_hash memory t key 0)
      → Answers compare t key (λ q. count_in q bucket) r
      → Answers compare t key (λ q. count q t.table) r
  Answers-whole (some p) agree a =
      (omega (arith, a.0, count_in-le-count p t.table (hash_get_key_hash memory t key 0)), a.1)
  Answers-whole none agree a = λ q h. elim (Bool-cases (equal_keys compare t q key)) [
    | inl e ↦ a q (
        omega (
          arith,
          count-home (home memory t) q 0 (hash_get_key_hash memory t key 0) t.table v.sound.placed
              (omega (arith, agree q e)),
        ))
    | inr e ↦ e
  ]

  -- Where pointers with a key equal to `key` have its bucket for their home, `hash_find` on a valid
  -- table returns a stored pointer with an equal key, or a null pointer if none is stored.
  pub hash_find-Answers :
      ((p : ℕ)
        → equal_keys compare t p key ≡ true
        → home memory t p ≡ hash_get_key_hash memory t key 0)
      → Answers compare t key (λ q. count q t.table) (hash_find memory compare t key)
  unfolding hash_find
  hash_find-Answers agree =
      let hash = hash_get_key_hash memory t key 0 in
      let e : 0 + hash ≡ hash = omega arith in
      let placed : IsHome (home memory t) hash bucket =
        rw e at (IsPlaced-get_or (home memory t) 0 hash t.table v.sound.placed) in
      Answers-whole (find_in compare t hash key bucket) agree
        (find_in-Answers compare t key (home memory t) hash bucket placed)
