-- ===== src/Hash/Occurs.antt =====
-- How often a pointer is in the buckets, and how many entries they hold.
use ithildin.Base.{
  ℕ, zero, suc, ◌+◌, ◌≤◌, ◌<◌, ◌≡◌, refl, ◌↔◌, Bool, true, List, [], ◌∷◌, ◌++◌, arith, ◌==◌,
  if◌then◌else◌, length, get_or, set, replicate,
}
use ithildin.Hash.{Hashent, Bucket, remove_ent, holds_ent}

abbrev pub one_if : Bool → ℕ
one_if b = if b then 1 else 0

unfoldable pub count_in : ℕ → Bucket → ℕ
count_in q [] = 0
count_in q (hep ∷ bucket) = one_if (hep.ent == q) + count_in q bucket

unfoldable pub count : ℕ → List Bucket → ℕ
count q [] = 0
count q (bucket ∷ bs) = count_in q bucket + count q bs

unfoldable pub total : List Bucket → ℕ
total [] = 0
total (bucket ∷ bs) = length bucket + total bs

pub count_in-cons :
    (q : ℕ) (hep : Hashent) (b : Bucket)
    → count_in q (hep ∷ b) ≡ one_if (hep.ent == q) + count_in q b
unfolding count_in
count_in-cons q hep b = refl

pub count_in-append : (q : ℕ) (b c : Bucket) → count_in q (b ++ c) ≡ count_in q b + count_in q c
unfolding count_in
count_in-append q [] c = omega arith
count_in-append q (hep ∷ b) c = omega (arith, count_in-append q b c)

pub count-set :
    (q : ℕ) (bs : List Bucket) (i : ℕ) (b : Bucket)
    → i < length bs
    → count q (set bs i b) + count_in q (get_or bs i []) ≡ count q bs + count_in q b
unfolding count
count-set q [] i b h = absurd (omega arith)
count-set q (c ∷ bs) zero b h = omega arith
count-set q (c ∷ bs) (suc i) b h = omega (arith, count-set q bs i b (omega arith))

pub total-set :
    (bs : List Bucket) (i : ℕ) (b : Bucket)
    → i < length bs
    → total (set bs i b) + length (get_or bs i []) ≡ total bs + length b
unfolding total
total-set [] i b h = absurd (omega arith)
total-set (c ∷ bs) zero b h = omega arith
total-set (c ∷ bs) (suc i) b h = omega (arith, total-set bs i b (omega arith))

pub count-replicate : (q n : ℕ) → (count q (replicate n []) ≡ 0) × (total (replicate n []) ≡ 0)
unfolding count total count_in
count-replicate q zero = (refl, refl)
count-replicate q (suc n) = omega (arith, count-replicate q n)

pub count_in-le-count :
    (q : ℕ) (bs : List Bucket) (i : ℕ) → count_in q (get_or bs i []) ≤ count q bs
unfolding count count_in
count_in-le-count q [] i = omega arith
count_in-le-count q (b ∷ bs) zero = omega arith
count_in-le-count q (b ∷ bs) (suc i) = omega (arith, count_in-le-count q bs i)

-- The bucket test of `hash_delete` and what the removal leaves.
pub holds_ent_iff : (p : ℕ) (b : Bucket) → (holds_ent p b ≡ true) ↔ (0 < count_in p b)
unfolding holds_ent count_in
holds_ent_iff p [] = ground arith
holds_ent_iff p (hep ∷ b) = ground (arith, holds_ent_iff p b)

pub count_in-remove_ent :
    (p q : ℕ) (b : Bucket)
    → holds_ent p b ≡ true
    → (count_in q (remove_ent p b) + one_if (p == q) ≡ count_in q b)
      × (length (remove_ent p b) + 1 ≡ length b)
unfolding holds_ent remove_ent count_in
count_in-remove_ent p q [] h = cc
count_in-remove_ent p q (hep ∷ b) h = ground (arith, count_in-remove_ent p q b)
