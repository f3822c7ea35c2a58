-- ===== src/Channel/Modes/Lists.antt =====
-- What the lists of modes hold, and what a search among the modes finds.
use ithildin.Base.{
  ℕ, zero, suc, ◌+◌, ◌≤◌, ◌<◌, ◌≡◌, refl, ◌∙◌, subst, ◌⊎◌, inl, inr, Bool, true, false, ◌&&◌, ◌||◌,
  none, some, [], ◌∷◌, ◌++◌, arith, ltb, ◌==◌, ==_iff, Bool-cases,
}
use ithildin.Text.Case.{Bytes}
use ithildin.Channel.Modes.{collect, when, first_from}

-- Whether a character stands in a list.
unfoldable pub contains : ℕ → Bytes → Bool
contains c [] = false
contains c (d ∷ s) = d == c || contains c s

pub contains-append : (c : ℕ) (s t : Bytes) → contains c (s ++ t) ≡ (contains c s || contains c t)
unfolding contains
contains-append c [] t = refl
contains-append c (d ∷ s) t = ground (arith, contains-append c s t)

-- A mode that is listed under its own character stands in the list exactly if it passes.
pub contains-collect :
    (p : ℕ → Bool) (name : ℕ → ℕ) (n c : ℕ)
    → ((i : ℕ) → p i ≡ true → name i ≡ i)
    → contains c (collect (λ i. when (p i) (name i)) n) ≡ (ltb c n && p c)
unfolding collect when contains
contains-collect p name zero c own = ground arith
contains-collect p name (suc n) c own =
    contains-append c (collect (λ i. when (p i) (name i)) n) (when (p n) (name n))
    ∙ rw (contains-collect p name n c own) (last (Bool-cases (p n)) (Bool-cases (n == c)))
  where
    last :
        (p n ≡ true) ⊎ (p n ≡ false)
        → ((n == c) ≡ true) ⊎ ((n == c) ≡ false)
        → ((ltb c n && p c) || contains c (when (p n) (name n))) ≡ (ltb c (suc n) && p c)
    last (inl t) (inl q) =
        let e : n ≡ c = (==_iff n c).0 q in
        let r = own n t in
        subst (λ c. ((ltb c n && p c) || contains c (when (p n) (name n))) ≡ (ltb c (suc n) && p c))
          e (rw (t, r) (ground arith))
    last (inr t) (inl q) =
        let e : n ≡ c = (==_iff n c).0 q in
        subst (λ c. ((ltb c n && p c) || contains c (when (p n) (name n))) ≡ (ltb c (suc n) && p c))
          e (rw t (ground arith))
    last (inl t) (inr q) = let r = own n t in rw (t, r, q) (ground arith)
    last (inr t) (inr q) = rw t (ground arith)

pub first_from-none :
    (p : ℕ → Bool) (rounds i j : ℕ)
    → first_from p rounds i ≡ none
    → i ≤ j
    → j < i + rounds
    → p j ≡ false
unfolding first_from
first_from-none p zero i j e h k = absurd (omega arith)
first_from-none p (suc rounds) i j e h k = elim (Bool-cases (p i)) [
  | inl t ↦ absurd (let f = rw t at e in cc)
  | inr t ↦ elim (Bool-cases (i == j)) [
    | inl q ↦ rw (← (==_iff i j).0 q) t
    | inr q ↦ first_from-none p rounds (i + 1) j (rw t at e) (ground arith) (omega arith)
  ]
]

pub first_from-some :
    (p : ℕ → Bool) (rounds i k : ℕ)
    → first_from p rounds i ≡ some k
    → (p k ≡ true) × (i ≤ k) × (k < i + rounds)
unfolding first_from
first_from-some p zero i k e = cc
first_from-some p (suc rounds) i k e = elim (Bool-cases (p i)) [
  | inl t ↦ let f = rw t at e in let q : i ≡ k = cc in (rw (← q) t, omega arith, omega arith)
  | inr t ↦
      let (a, b, c) = first_from-some p rounds (i + 1) k (rw t at e) in
      (a, omega arith, omega arith)
]
