-- ===== src/Event/Walk.antt =====
-- The list of hooks while it is walked: requests keep the place of the walk.
use ithildin.Base.{
  ℕ, ◌+◌, ◌≤◌, ◌<◌, ◌≡◌, refl, ◌≢◌, inl, inr, true, Option, none, some, List, [], ◌∷◌, arith, ◌==◌,
  if◌then◌else◌, Bool-cases, All,
}
use ithildin.Event.{Hook, State, insert_after, insert_before, is, defer}
use ithildin.Event.Call.{next_of}

-- No two hooks have one address.
abbrev pub Apart : List Hook → Type 0
Apart [] = Unit
Apart (hp ∷ hooks) = All (λ h. h.at ≢ hp.at) hooks × Apart hooks

-- The addresses are those that malloc has given.
pub record IsSound (s : State) : Type 0 where
  pub below : All (λ h. h.at < s.fresh) s.event.hooks
  pub apart : Apart s.event.hooks

-- A weight for each hook: `a` for one that was there, `b` for a new one.
module _ (a b : ℕ) where
  abbrev pub weigh : List Hook → ℕ
  weigh [] = 0
  weigh (hp ∷ hooks) = (if hp.new then b else a) + weigh hooks

  weigh-insert_after :
      (f : Option ℕ) (hp : Hook) (hooks : List Hook)
      → hp.new ≡ true
      → weigh (insert_after f hp hooks) ≡ weigh hooks + b
  unfolding insert_after
  weigh-insert_after f hp [] n = ground arith
  weigh-insert_after f hp (h ∷ hooks) n = ground (arith, weigh-insert_after f hp hooks)

  weigh-insert_before :
      (f : Option ℕ) (hp : Hook) (hooks : List Hook)
      → hp.new ≡ true
      → weigh (insert_before f hp hooks) ≡ weigh hooks + b
  unfolding insert_before
  weigh-insert_before none hp hooks n = ground arith
  weigh-insert_before (some f) hp [] n = ground arith
  weigh-insert_before (some f) hp (h ∷ hooks) n =
      ground (arith, weigh-insert_before (some f) hp hooks)

  pub weigh-next_of-insert_after :
      (i : ℕ) (f : Option ℕ) (hp : Hook) (hooks : List Hook)
      → hp.new ≡ true
      → hp.at ≢ i
      → weigh (next_of i (insert_after f hp hooks)) ≤ weigh (next_of i hooks) + b
  unfolding insert_after next_of
  weigh-next_of-insert_after i f hp [] n q = ground arith
  weigh-next_of-insert_after i f hp (h ∷ hooks) n q =
      ground (arith, weigh-next_of-insert_after i f hp hooks, weigh-insert_after f hp hooks)

  pub weigh-next_of-insert_before :
      (i : ℕ) (f : Option ℕ) (hp : Hook) (hooks : List Hook)
      → hp.new ≡ true
      → hp.at ≢ i
      → weigh (next_of i (insert_before f hp hooks)) ≤ weigh (next_of i hooks) + b
  unfolding insert_before next_of
  weigh-next_of-insert_before i none hp hooks n q = ground arith
  weigh-next_of-insert_before i (some f) hp [] n q = ground arith
  weigh-next_of-insert_before i (some f) hp (h ∷ hooks) n q = ground (
    arith,
    weigh-next_of-insert_before i (some f) hp hooks,
    weigh-insert_before (some f) hp hooks,
  )

  weigh-defer : (i : ℕ) (hooks : List Hook) → weigh (defer i hooks) ≡ weigh hooks
  unfolding defer
  weigh-defer i [] = refl
  weigh-defer i (h ∷ hooks) = ground (arith, weigh-defer i hooks)

  pub weigh-next_of-defer :
      (i j : ℕ) (hooks : List Hook) → weigh (next_of i (defer j hooks)) ≡ weigh (next_of i hooks)
  unfolding defer next_of
  weigh-next_of-defer i j [] = refl
  weigh-next_of-defer i j (h ∷ hooks) =
      ground (arith, weigh-next_of-defer i j hooks, weigh-defer j hooks)

module _ (P : Hook → Type 0) where
  pub All-insert_after :
      (f : Option ℕ) (hp : Hook) (hooks : List Hook)
      → P hp
      → All P hooks
      → All P (insert_after f hp hooks)
  unfolding insert_after
  All-insert_after f hp [] p h = (p, tt)
  All-insert_after f hp (x ∷ hooks) p h = elim (Bool-cases (is f x.function)) [
    | inl e ↦ rw e (h.0, (p, h.1))
    | inr e ↦ rw e (h.0, All-insert_after f hp hooks p h.1)
  ]

  pub All-insert_before :
      (f : Option ℕ) (hp : Hook) (hooks : List Hook)
      → P hp
      → All P hooks
      → All P (insert_before f hp hooks)
  unfolding insert_before
  All-insert_before none hp hooks p h = (p, h)
  All-insert_before (some f) hp [] p h = (p, tt)
  All-insert_before (some f) hp (x ∷ hooks) p h = elim (Bool-cases (x.function == f)) [
    | inl e ↦ rw e (p, h)
    | inr e ↦ rw e (h.0, All-insert_before (some f) hp hooks p h.1)
  ]

-- A predicate of addresses.
module _ (P : ℕ → Type 0) where
  pub All-defer :
      (i : ℕ) (hooks : List Hook) → All (λ h. P h.at) hooks → All (λ h. P h.at) (defer i hooks)
  unfolding defer
  All-defer i [] h = tt
  All-defer i (x ∷ hooks) h = elim (Bool-cases (x.at == i)) [
    | inl e ↦ rw e (h.0, h.1)
    | inr e ↦ rw e (h.0, All-defer i hooks h.1)
  ]

pub All-weaken {κ λ'} :
    {A : Type 0} (P : A → Type κ) (Q : A → Type λ') (xs : List A)
    → ((x : A) → P x → Q x)
    → All P xs
    → All Q xs
All-weaken P Q [] w h = tt
All-weaken P Q (x ∷ xs) w h = (w x h.0, All-weaken P Q xs w h.1)

pub Apart-insert_after :
    (f : Option ℕ) (hp : Hook) (hooks : List Hook)
    → All (λ h. h.at < hp.at) hooks
    → Apart hooks
    → Apart (insert_after f hp hooks)
unfolding insert_after
Apart-insert_after f hp [] l h = (tt, tt)
Apart-insert_after f hp (x ∷ hooks) l h = elim (Bool-cases (is f x.function)) [
  | inl e ↦ rw e ((omega arith, h.0), (All-weaken _ _ hooks (λ y p q. omega arith) l.1, h.1))
  | inr e ↦ rw e (
    All-insert_after (λ y. y.at ≢ x.at) f hp hooks (omega arith) h.0,
    Apart-insert_after f hp hooks l.1 h.1,
  )
]

pub Apart-insert_before :
    (f : Option ℕ) (hp : Hook) (hooks : List Hook)
    → All (λ h. h.at < hp.at) hooks
    → Apart hooks
    → Apart (insert_before f hp hooks)
unfolding insert_before
Apart-insert_before none hp hooks l h = (All-weaken _ _ hooks (λ y p q. omega arith) l, h)
Apart-insert_before (some f) hp [] l h = (tt, tt)
Apart-insert_before (some f) hp (x ∷ hooks) l h = elim (Bool-cases (x.function == f)) [
  | inl e ↦ rw e (((λ q. omega arith), All-weaken _ _ hooks (λ y p q. omega arith) l.1), h)
  | inr e ↦ rw e (
    All-insert_before (λ y. y.at ≢ x.at) (some f) hp hooks (omega arith) h.0,
    Apart-insert_before (some f) hp hooks l.1 h.1,
  )
]

pub Apart-defer : (i : ℕ) (hooks : List Hook) → Apart hooks → Apart (defer i hooks)
unfolding defer
Apart-defer i [] h = tt
Apart-defer i (x ∷ hooks) h = elim (Bool-cases (x.at == i)) [
  | inl e ↦ rw e h
  | inr e ↦ rw e (All-defer (λ n. n ≢ x.at) i hooks h.0, Apart-defer i hooks h.1)
]
