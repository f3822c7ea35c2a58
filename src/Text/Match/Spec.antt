-- ===== src/Text/Match/Spec.antt =====
-- What it means for a text to match a pattern, with no search order and no depth in it.
use ithildin.Base.{ℕ, ◌+◌, ◌≡◌, sym, ◌∙◌, ◌≢◌, [], ◌∷◌, arith, ◌==◌, if◌then◌else◌}
use ithildin.Text.Case.{Bytes, fold}

abbrev pub star : ℕ
star = b'*'

abbrev pub question : ℕ
question = b'?'

pub data Matches : Bytes → Bytes → Type 0 where
  done : Matches [] []
  any : {c x : ℕ} {w s : Bytes} → c ≡ question → Matches w s → Matches (c ∷ w) (x ∷ s)
  byte :
      {c x : ℕ} {w s : Bytes}
      → c ≢ star
      → c ≢ question
      → fold c ≡ fold x
      → Matches w s
      → Matches (c ∷ w) (x ∷ s)
  leave : {c : ℕ} {w s : Bytes} → c ≡ star → Matches w s → Matches (c ∷ w) s
  take : {c x : ℕ} {w s : Bytes} → c ≡ star → Matches (c ∷ w) s → Matches (c ∷ w) (x ∷ s)

-- The number of stars.
abbrev pub stars : Bytes → ℕ
stars [] = 0
stars (c ∷ w) = (if c == star then 1 else 0) + stars w

pub any_nil : {c : ℕ} {w : Bytes} → c ≡ question → ¬ Matches (c ∷ w) []
any_nil e (leave e' m) = omega arith

-- How a match of a star and what follows it goes on.
module _ {b : ℕ} (st : b ≡ star) where
  pub under_nil : {c : ℕ} {w : Bytes} → Matches (b ∷ c ∷ w) [] → Matches (c ∷ w) []
  under_nil (leave e m) = m

  pub under_star : {c : ℕ} {w s : Bytes} → c ≡ star → Matches (b ∷ c ∷ w) s → Matches (b ∷ w) s
  under_star e (any q m) = absurd (omega arith)
  under_star e (byte n q f m) = absurd (n st)
  under_star e (leave e' m) = rw (st ∙ sym e) m
  under_star e (take e' m) = take st (under_star e m)

  pub under_any :
      {c x : ℕ} {w : Bytes} (s : Bytes)
      → c ≡ question
      → Matches (b ∷ c ∷ w) (x ∷ s)
      → Matches (b ∷ w) s
  under_any s e (any q m) = absurd (omega arith)
  under_any s e (byte n q f m) = absurd (n st)
  under_any s e (leave e' (any q m)) = leave st m
  under_any s e (leave e' (byte n q f m)) = absurd (q e)
  under_any s e (leave e' (leave e'' m)) = absurd (omega arith)
  under_any s e (leave e' (take e'' m)) = absurd (omega arith)
  under_any [] e (take e' (leave e'' m)) = elim (any_nil e m) [ ]
  under_any (y ∷ s) e (take e' m) = take st (under_any s e m)

  pub skip_any :
      {c x : ℕ} {w : Bytes} (s : Bytes)
      → c ≡ question
      → Matches (b ∷ w) s
      → Matches (b ∷ c ∷ w) (x ∷ s)
  skip_any s e (any q m) = absurd (omega arith)
  skip_any s e (byte n q f m) = absurd (n st)
  skip_any s e (leave e' m) = leave st (any e m)
  skip_any (y ∷ s) e (take e' m) = take st (skip_any s e m)

  pub star_all : (s : Bytes) → Matches (b ∷ []) s
  star_all [] = leave st done
  star_all (x ∷ s) = take st (star_all s)
