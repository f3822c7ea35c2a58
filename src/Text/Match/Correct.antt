-- ===== src/Text/Match/Correct.antt =====
-- `match` answers the question that `Matches` asks, as far as its depth goes.
use ithildin.Base.{
  ℕ, zero, suc, ◌<◌, ◌≡◌, ◌≢◌, ◌↔◌, refl, ap, inl, inr, Bool, true, [], ◌∷◌, arith, ◌==◌, ==_iff,
  ==_ne, Bool-cases, ℤ, pos, negsuc, Option, some, none,
}
use ithildin.Text.Case.{Bytes, IsText}
use ithildin.Text.Compare.{strcmp}
use ithildin.Text.Compare.Zero.{strcmp-zero}
use ithildin.Text.Match.{
  max_match_depth, scan, star_loop, match_loop, match_at, returned_zero, match,
}
use ithildin.Text.Match.Spec.{
  star, question, Matches, any, byte, leave, take, stars, under_nil, under_star, under_any,
  star_all,
}
use ithildin.Text.Match.Sound.{same_iff, match_at-Matches}

nil_star : {c : ℕ} {w : Bytes} → c ≢ star → ¬ Matches (c ∷ w) []
nil_star n (leave e m) = n e

-- A nested call that finds every match of a pattern with fewer than `k` stars.
abbrev Complete : ℕ → (Bytes → Bytes → Bool) → Type 0
Complete k sub = (w s : Bytes) → IsText w → IsText s → stars w < k → Matches w s → sub w s ≡ true

module _ (k : ℕ) (sub : Bytes → Bytes → Bool) (complete : Complete k sub) where
  scan_finds :
      (b c : ℕ) (w s : Bytes)
      → b ≡ star
      → c ≢ star
      → c ≢ question
      → c < 256
      → IsText w
      → IsText s
      → stars w < k
      → Matches (b ∷ c ∷ w) s
      → scan sub c w s ≡ true
  unfolding scan
  scan_finds b c w [] eb n q hc hw hs h m = absurd (nil_star n (under_nil eb m))
  scan_finds b c w (x ∷ s) eb n q hc hw hs h (any e m) = absurd (omega arith)
  scan_finds b c w (x ∷ s) eb n q hc hw hs h (byte e e' f m) = absurd (e eb)
  scan_finds b c w (x ∷ s) eb n q hc hw hs h (leave e (any e' m)) = absurd (q e')
  scan_finds b c w (x ∷ s) eb n q hc hw hs h (leave e (byte _ _ f m)) =
      rw ((same_iff x c hs.1 hc).1 f, complete w s hw hs.2 h m)
  scan_finds b c w (x ∷ s) eb n q hc hw hs h (leave e (leave e' m)) = absurd (n e')
  scan_finds b c w (x ∷ s) eb n q hc hw hs h (leave e (take e' m)) = absurd (n e')
  scan_finds b c w (x ∷ s) eb n q hc hw hs h (take e m) =
      rw (scan_finds b c w s eb n q hc hw hs.2 h m) (ground arith)

  star_loop_finds :
      (b : ℕ) (w s : Bytes)
      → b ≡ star
      → IsText w
      → IsText s
      → stars w < k
      → Matches (b ∷ w) s
      → star_loop sub w s ≡ true
  unfolding star_loop
  star_loop_finds b [] s eb hw hs h m = refl
  star_loop_finds b (c ∷ w) [] eb hw hs h m = elim (Bool-cases (c == star)) [
    | inl st ↦
        rw st
          (star_loop_finds b w [] eb hw.2 hs (omega arith) (under_star eb ((==_iff c star).0 st) m))
    | inr n ↦ absurd (nil_star (ground arith) (under_nil eb m))
  ]
  star_loop_finds b (c ∷ w) (x ∷ s) eb hw hs h m = elim (Bool-cases (c == star)) [
    | inl st ↦ rw st (
        star_loop_finds b w (x ∷ s) eb hw.2 hs (omega arith)
          (under_star eb ((==_iff c star).0 st) m))
    | inr n ↦ elim (Bool-cases (c == question)) [
      | inl q ↦
          rw (n, q)
            (star_loop_finds b w s eb hw.2 hs.2 (omega arith)
              (under_any eb s ((==_iff c question).0 q) m))
      | inr nq ↦
          rw (n, nq)
            (scan_finds b c w (x ∷ s) eb (ground arith) (ground arith) hw.1 hw.2 hs (omega arith) m)
    ]
  ]

  match_loop_finds :
      (w s : Bytes)
      → IsText w
      → IsText s
      → stars w < suc k
      → Matches w s
      → match_loop sub w s ≡ true
  unfolding match_loop
  match_loop_finds [] [] hw hs h m = refl
  match_loop_finds [] (x ∷ s) hw hs h m = elim m [ ]
  match_loop_finds (c ∷ w) [] hw hs h m = elim (Bool-cases (c == star)) [
    | inl st ↦ rw st (star_loop_finds c w [] ((==_iff c star).0 st) hw.2 hs (fewer st) m)
    | inr n ↦ absurd (nil_star (ground arith) m)
  ]
    where
      fewer : (c == star) ≡ true → stars w < k
      fewer st = ground arith
  match_loop_finds (c ∷ w) (x ∷ s) hw hs h (any e m) =
      rw e (match_loop_finds w s hw.2 hs.2 (omega arith) m)
  match_loop_finds (c ∷ w) (x ∷ s) hw hs h (byte n q f m) =
      rw (==_ne c star n, ==_ne c question q, (same_iff x c hs.1 hw.1).1 f)
        (match_loop_finds w s hw.2 hs.2 (omega arith) m)
  match_loop_finds (c ∷ w) (x ∷ s) hw hs h (leave e m) =
      rw (ap (λ n. n == star) e) (star_loop_finds c w (x ∷ s) e hw.2 hs (ground arith) (leave e m))
  match_loop_finds (c ∷ w) (x ∷ s) hw hs h (take e m) =
      rw (ap (λ n. n == star) e) (star_loop_finds c w (x ∷ s) e hw.2 hs (ground arith) (take e m))

match_at_finds :
    (depth : ℕ) (w s : Bytes)
    → IsText w
    → IsText s
    → stars w < depth
    → Matches w s
    → match_at depth w s ≡ true
unfolding match_at
match_at_finds zero w s hw hs h m = absurd (omega arith)
match_at_finds (suc depth) w s hw hs h m =
    match_loop_finds depth (match_at depth) (match_at_finds depth) w s hw hs h m

is_zero_iff : (z : Option ℤ) → (returned_zero z ≡ true) ↔ (z ≡ some (pos 0))
is_zero_iff none = ground arith
is_zero_iff (some (pos n)) = ground arith
is_zero_iff (some (negsuc n)) = ground arith

star-IsText : IsText (star ∷ [])
star-IsText = omega arith

-- Whatever the pattern, `match` answers 1 only where the text matches it, the two cases of a letter
-- being one but for h, j and t.
match_sound : (wild s : Bytes) → IsText wild → IsText s → match wild s ≡ true → Matches wild s
unfolding match
match_sound wild s hw hs e = elim (Bool-cases (returned_zero (strcmp wild (star ∷ [])))) [
  | inl all ↦
      let one : wild ≡ star ∷ [] =
        (strcmp-zero wild (star ∷ []) hw star-IsText).0 ((is_zero_iff _).0 all) in
      rw one (star_all refl s)
  | inr other ↦ match_at-Matches max_match_depth wild s hw hs (rw other at e)
]

match_complete :
    (wild s : Bytes)
    → IsText wild
    → IsText s
    → stars wild < 12
    → Matches wild s
    → match wild s ≡ true
unfolding match
match_complete wild s hw hs h m = elim (Bool-cases (returned_zero (strcmp wild (star ∷ [])))) [
  | inl all ↦ rw all
  | inr other ↦ rw other (match_at_finds max_match_depth wild s hw hs h m)
]

-- For a pattern of at most eleven stars and a text, without NULs in them, `match` answers 1 exactly
-- where the text matches the pattern, the two cases of a letter being one but for h, j and t: the
-- depth of 12 calls is enough.
pub match_iff :
    (wild s : Bytes)
    → IsText wild
    → IsText s
    → stars wild < 12
    → (match wild s ≡ true) ↔ Matches wild s
match_iff wild s hw hs h = (match_sound wild s hw hs, match_complete wild s hw hs h)
