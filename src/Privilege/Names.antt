-- ===== src/Privilege/Names.antt =====
-- The search of a privilege by its name, in an array where one entry was written.
use ithildin.Base.{
  ℕ, zero, suc, ◌+◌, ◌≤◌, ◌<◌, ◌≡◌, refl, ap, ◌∙◌, ◌⊎◌, inl, inr, true, none, some, List, [], ◌∷◌,
  ◌++◌, arith, Bool-cases, Option-cases, length, set,
}
use ithildin.Text.Case.{Bytes}
use ithildin.Text.Truth.{same_name}
use ithildin.Privilege.{Privilege, find_from, empty_slot}

-- An entry that is not found is passed over, whatever comes behind it.
passes_over :
    (name : Bytes) (n i : ℕ) (pp : Privilege) (pps : List Privilege)
    → find_from name (suc n) i (pp ∷ pps) ≡ none
    → (find_from name n (suc i) pps ≡ none)
      × ((m : ℕ) (others : List Privilege)
          → find_from name (suc m) i (pp ∷ others) ≡ find_from name m (suc i) others)
unfolding find_from
passes_over name n i pp pps e = elim (Option-cases pp.name) [
  | inl f ↦ (rw (find_from, f) at e, λ m others. rw (find_from, f))
  | inr (other, f) ↦ elim (Bool-cases (same_name other name)) [
    | inl g ↦ absurd (let h = rw (find_from, f, g) at e in cc)
    | inr g ↦ (rw (find_from, f, g) at e, λ m others. rw (find_from, f, g))
  ]
]

-- Where no entry has the name, one that is written with it is found.
pub find_from-set :
    (name other : Bytes) (n m i j : ℕ) (pps : List Privilege) (pp : Privilege)
    → pp.name ≡ some other
    → same_name other name ≡ true
    → find_from name n i pps ≡ none
    → j ≤ n
    → j < m
    → j < length pps
    → find_from name m i (set pps j pp) ≡ some (i + j)
unfolding find_from
find_from-set name other n m i j [] pp p q e h k l = absurd (omega arith)
find_from-set name other n zero i j (x ∷ pps) pp p q e h k l = absurd (omega arith)
find_from-set name other n (suc m) i zero (x ∷ pps) pp p q e h k l =
    let f : i ≡ i + 0 = omega arith in rw (find_from, p, q) (ap some f)
find_from-set name other zero (suc m) i (suc j) (x ∷ pps) pp p q e h k l = absurd (omega arith)
find_from-set name other (suc n) (suc m) i (suc j) (x ∷ pps) pp p q e h k l =
    let (f, g) = passes_over name n i x pps e in
    let a : suc i + j ≡ i + suc j = omega arith in
    g m (set pps j pp)
    ∙ find_from-set name other n m (suc i) j pps pp p q f (omega arith) (omega arith) (omega arith)
    ∙ ap some a

-- An entry without name that is written does not make one found, nor does the place behind those
-- searched.
pub find_from-set_dead :
    (name : Bytes) (n m i j : ℕ) (pps : List Privilege) (pp : Privilege)
    → pp.name ≡ none
    → find_from name n i pps ≡ none
    → (m ≡ n) ⊎ ((m ≡ suc n) × (j ≡ n))
    → find_from name m i (set pps j pp) ≡ none
unfolding find_from
find_from-set_dead name n zero i j pps pp p e w = refl
find_from-set_dead name n (suc m) i j [] pp p e w = refl
find_from-set_dead name zero (suc m) i zero (x ∷ pps) pp p e w =
    let z : m ≡ 0 = ground arith in rw (find_from, p, z)
find_from-set_dead name zero (suc m) i (suc j) (x ∷ pps) pp p e w = absurd (ground arith)
find_from-set_dead name (suc n) (suc m) i zero (x ∷ pps) pp p e w =
    let (f, g) = passes_over name n i x pps e in
    let z : m ≡ n = ground arith in rw (find_from, p, z) f
find_from-set_dead name (suc n) (suc m) i (suc j) (x ∷ pps) pp p e w =
    let (f, g) = passes_over name n i x pps e in
    g m (set pps j pp) ∙ find_from-set_dead name n m (suc i) j pps pp p f (ground arith)

pub empty_slot-lt :
    (n i j : ℕ) (pps : List Privilege) → empty_slot n i pps ≡ some j → (i ≤ j) × (j < i + n)
unfolding empty_slot
empty_slot-lt zero i j pps e = cc
empty_slot-lt (suc n) i j [] e = cc
empty_slot-lt (suc n) i j (pp ∷ pps) e = elim (Option-cases pp.num) [
  | inl f ↦ (let g : some i ≡ some j = rw (empty_slot, f) at e in ground arith)
  | inr (num, f) ↦
      let h = empty_slot-lt n (suc i) j pps (rw (empty_slot, f) at e) in
      (omega (arith, h.0), omega (arith, h.1))
]

pub find_from-append :
    (name : Bytes) (n i : ℕ) (pps others : List Privilege)
    → n ≤ length pps
    → find_from name n i (pps ++ others) ≡ find_from name n i pps
unfolding find_from
find_from-append name zero i pps others h = refl
find_from-append name (suc n) i [] others h = absurd (omega arith)
find_from-append name (suc n) i (pp ∷ pps) others h =
    let e = find_from-append name n (suc i) pps others (omega arith) in
    elim (Option-cases pp.name) [
      | inl f ↦ rw (find_from, f) e
      | inr (other, f) ↦ elim (Bool-cases (same_name other name)) [
        | inl g ↦ rw (find_from, f, g)
        | inr g ↦ rw (find_from, f, g) e
      ]
    ]
