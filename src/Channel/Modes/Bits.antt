-- ===== src/Channel/Modes/Bits.antt =====
-- The bit that a request for a mode with a prefix gets.
use ithildin.Base.{
  ℕ, ◌^◌, ◌<◌, ◌≡◌, refl, ◌≢◌, ◌⊎◌, inl, inr, true, false, none, some, arith, ltb, ◌==◌, ==_iff,
  ==_refl, Bool-cases, Option-cases, passes, passes-lt,
}
use ithildin.Channel.Modes.{Chanmode, first_from, is_bit, is_free, free_bit}
use ithildin.Channel.Modes.Lists.{first_from-none, first_from-some}

not_last : (u : ℕ) → is_bit u 15 ≢ true
unfolding is_bit
not_last u t = absurd (ground arith)

-- The bit 15 never counts as used: the `short` is negative.
is_free_last : (modes : ℕ → Chanmode) → is_free modes 15 ≡ true
unfolding is_free
is_free_last modes = elim (Option-cases (first_from (λ j. is_bit (modes j).umask 15) 256 0)) [
  | inl e ↦ rw (e, is_free)
  | inr (j, e) ↦
      let (t, low, high) = first_from-some (λ j. is_bit (modes j).umask 15) 256 0 j e in
      absurd (not_last (modes j).umask t)
]

is_free-none :
    (modes : ℕ → Chanmode) (i : ℕ)
    → is_free modes i ≡ true
    → first_from (λ j. is_bit (modes j).umask i) 256 0 ≡ none
unfolding is_free
is_free-none modes i t = elim (Option-cases (first_from (λ j. is_bit (modes j).umask i) 256 0)) [
  | inl e ↦ e
  | inr (j, e) ↦ let f = rw (e, is_free) at t in absurd (cc)
]

powers : passes (λ i. ltb (2 ^ i) (2 ^ 15)) 15 ≡ true
unfolding passes
powers = refl

is_bit_self : (i : ℕ) → i < 15 → is_bit (2 ^ i) i ≡ true
unfolding is_bit
is_bit_self i h = rw (passes-lt (λ i. ltb (2 ^ i) (2 ^ 15)) 15 i powers h, ==_refl (2 ^ i))

below_last : (i : ℕ) → i < 16 → (i == 15) ≡ false → i < 15
below_last i h q = ground arith

-- A free bit is found, and no mode has it, unless it is the last.
pub free_bit_total :
    (modes : ℕ → Chanmode)
    → (i : ℕ) × (free_bit modes ≡ some i)
      × (i < 16)
      × ((i ≡ 15) ⊎ ((j : ℕ) → j < 256 → (modes j).umask ≢ 2 ^ i))
unfolding free_bit
free_bit_total modes = elim (Option-cases (first_from (is_free modes) 16 0)) [
  | inl e ↦
      let f = first_from-none (is_free modes) 16 0 15 e (omega arith) (omega arith) in
      let g = is_free_last modes in absurd (cc)
  | inr (i, e) ↦
      let (t, low, high) = first_from-some (is_free modes) 16 0 i e in
      (
        i,
        e,
        omega arith,
        elim (Bool-cases (i == 15)) [
          | inl q ↦ inl ((==_iff i 15).0 q)
          | inr q ↦ inr (λ j h u.
              let f =
                first_from-none (λ j. is_bit (modes j).umask i) 256 0 j (is_free-none modes i t)
                  (omega arith) (omega arith) in
              let g = is_bit_self i (below_last i (omega arith) q) in let f' = rw u at f in cc)
        ],
      )
]
