-- ===== src/Text/Match/Sound.antt =====
-- A call of `_match` that answers 1, at any depth.
use ithildin.Base.{
  ℕ, zero, suc, ◌<◌, ◌≡◌, ◌≢◌, ◌↔◌, sym, inl, inr, Bool, true, ◌&&◌, [], ◌∷◌, arith, ◌==◌, ==_iff,
  Bool-cases,
}
use ithildin.Text.Case.{Bytes, IsText, toupper-eq_iff, fold}
use ithildin.Text.Match.{same, scan, star_loop, match_loop, match_at}
use ithildin.Text.Match.Spec.{
  star, question, Matches, done, any, byte, leave, take, skip_any, star_all,
}

pub same_iff : (x c : ℕ) → x < 256 → c < 256 → (same x c ≡ true) ↔ (fold c ≡ fold x)
same_iff x c hx hc = (
  λ e. sym ((toupper-eq_iff x c hx hc).0 ((==_iff _ _).0 e)),
  λ e. (==_iff _ _).1 ((toupper-eq_iff x c hx hc).1 (sym e)),
)

-- What a nested call may be trusted with.
abbrev Sound : (Bytes → Bytes → Bool) → Type 0
Sound sub = (w s : Bytes) → IsText w → IsText s → sub w s ≡ true → Matches w s

module _ (sub : Bytes → Bytes → Bool) (sound : Sound sub) where
  scan-Matches :
      (b c : ℕ) (w s : Bytes)
      → b ≡ star
      → c ≢ star
      → c ≢ question
      → c < 256
      → IsText w
      → IsText s
      → scan sub c w s ≡ true
      → Matches (b ∷ c ∷ w) s
  unfolding scan
  scan-Matches b c w [] eb n q hc hw hs e = cc
  scan-Matches b c w (x ∷ s) eb n q hc hw hs e = elim (Bool-cases (same x c && sub w s)) [
    | inl both ↦
        leave eb
          (byte n q ((same_iff x c hs.1 hc).0 (ground arith)) (sound w s hw hs.2 (ground arith)))
    | inr other ↦ take eb (scan-Matches b c w s eb n q hc hw hs.2 (rw other at e))
  ]

  star_loop-Matches :
      (b : ℕ) (w s : Bytes)
      → b ≡ star
      → IsText w
      → IsText s
      → star_loop sub w s ≡ true
      → Matches (b ∷ w) s
  unfolding star_loop
  star_loop-Matches b [] s eb hw hs e = star_all eb s
  star_loop-Matches b (c ∷ w) [] eb hw hs e = elim (Bool-cases (c == star)) [
    | inl st ↦ leave eb (star_loop-Matches c w [] ((==_iff c star).0 st) hw.2 hs (rw st at e))
    | inr n ↦ absurd (unfold scan in cc (rw n at e))
  ]
  star_loop-Matches b (c ∷ w) (x ∷ s) eb hw hs e = elim (Bool-cases (c == star)) [
    | inl st ↦ leave eb (star_loop-Matches c w (x ∷ s) ((==_iff c star).0 st) hw.2 hs (rw st at e))
    | inr n ↦ elim (Bool-cases (c == question)) [
      | inl q ↦
          skip_any eb s ((==_iff c question).0 q)
            (star_loop-Matches b w s eb hw.2 hs.2 (rw (n, q) at e))
      | inr nq ↦
          scan-Matches b c w (x ∷ s) eb (ground arith) (ground arith) hw.1 hw.2 hs (rw (n, nq) at e)
    ]
  ]

  match_loop-Matches : (w s : Bytes) → IsText w → IsText s → match_loop sub w s ≡ true → Matches w s
  unfolding match_loop
  match_loop-Matches [] [] hw hs e = done
  match_loop-Matches [] (x ∷ s) hw hs e = cc
  match_loop-Matches (c ∷ w) [] hw hs e = elim (Bool-cases (c == star)) [
    | inl st ↦ star_loop-Matches c w [] ((==_iff c star).0 st) hw.2 hs (rw st at e)
    | inr n ↦ cc (rw n at e)
  ]
  match_loop-Matches (c ∷ w) (x ∷ s) hw hs e = elim (Bool-cases (c == star)) [
    | inl st ↦ star_loop-Matches c w (x ∷ s) ((==_iff c star).0 st) hw.2 hs (rw st at e)
    | inr n ↦ elim (Bool-cases (c == question)) [
      | inl q ↦ any ((==_iff c question).0 q) (match_loop-Matches w s hw.2 hs.2 (rw (n, q) at e))
      | inr nq ↦ elim (Bool-cases (same x c)) [
        | inl same_byte ↦
            byte (ground arith) (ground arith) ((same_iff x c hs.1 hw.1).0 same_byte)
              (match_loop-Matches w s hw.2 hs.2 (rw (n, nq, same_byte) at e))
        | inr other ↦ cc (rw (n, nq, other) at e)
      ]
    ]
  ]

pub match_at-Matches :
    (depth : ℕ) (w s : Bytes) → IsText w → IsText s → match_at depth w s ≡ true → Matches w s
unfolding match_at
match_at-Matches zero w s hw hs e = cc
match_at-Matches (suc depth) w s hw hs e =
    match_loop-Matches (match_at depth) (match_at-Matches depth) w s hw hs e
