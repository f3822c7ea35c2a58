-- ===== src/Text/Compare/Order.antt =====
-- The sign of a comparison.
use ithildin.Base.{
  ℕ, ◌≡◌, inl, inr, some, [], ◌∷◌, arith, ◌==◌, ==_refl, Bool-cases, All, ℤ, pos, neg, ◌-ℤ◌,
}
use ithildin.Text.Case.{Bytes, IsText}
use ithildin.Text.Compare.{cmp_loop, strcasecmp, strcmp}
use ithildin.Text.Compare.Zero.{IsKey, IsByte, IsText-All, tolower-IsKey, schar-IsKey}

module _ (P : ℕ → Type 0) (key : ℕ → ℕ) (value : ℕ → ℤ) (k : IsKey P key value) where
  -- The loop stays within both strings, and its result changes sign when the strings change places.
  pub cmp_loop_swap :
      (one two : Bytes)
      → All P one
      → All P two
      → (z : ℤ) × (cmp_loop key value one two ≡ some z)
        × (cmp_loop key value two one ≡ some (neg z))
  unfolding cmp_loop
  cmp_loop_swap [] [] h1 h2 = (pos 0, rw (==_refl (key 0)), rw (==_refl (key 0)))
  cmp_loop_swap [] (d ∷ two) h1 h2 =
      let n = k.nul d h2.0 in (value 0 -ℤ value d, ground arith, ground arith)
  cmp_loop_swap (c ∷ one) [] h1 h2 =
      let n = k.nul c h1.0 in (value c -ℤ value 0, ground arith, ground arith)
  cmp_loop_swap (c ∷ one) (d ∷ two) h1 h2 = elim (Bool-cases (key c == key d)) [
    | inl e ↦
        let b = k.some_byte c h1.0 in
        let b' = k.some_byte d h2.0 in
        let (z, p, q) = cmp_loop_swap one two h1.1 h2.1 in (z, ground arith, ground arith)
    | inr e ↦ (value c -ℤ value d, ground arith, ground arith)
  ]

-- On C strings both comparisons return within the strings, and exchanging the arguments changes
-- the sign of the result.
strcmp_swap :
    (one two : Bytes)
    → IsText one
    → IsText two
    → ((z : ℤ) × (strcmp one two ≡ some z) × (strcmp two one ≡ some (neg z)))
      × ((z : ℤ) × (strcasecmp one two ≡ some z) × (strcasecmp two one ≡ some (neg z)))
unfolding strcmp strcasecmp
strcmp_swap one two h1 h2 =
    let a = IsText-All one h1 in
    let b = IsText-All two h2 in
    (
      cmp_loop_swap IsByte _ _ schar-IsKey one two a b,
      cmp_loop_swap IsByte _ _ tolower-IsKey one two a b,
    )
