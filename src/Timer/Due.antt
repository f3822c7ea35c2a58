-- ===== src/Timer/Due.antt =====
-- The timers that are due, those behind them, and how the called ones go back.
use ithildin.Base.{
  ℕ, ◌+◌, ◌≤◌, ◌<◌, ◌≡◌, refl, ap, ◌≢◌, ◌⊎◌, inl, inr, false, Option, none, some, List, [], ◌∷◌,
  ◌++◌, arith, ltb, leb, ◌==◌, if◌then◌else◌, leb→le, ==_refl, Bool-cases, Option-cases, All,
}
use ithildin.Timer.{Reps, TimerEvent, State, find_timer, insert_timer, remove_timer, destroy_timer}
use ithildin.Timer.Exec.{TimerCall, first, count_down, renewed, requeue}
use ithildin.Timer.Order.{SortedFrom, IsSorted, insert_timer-SortedFrom, refs, refs-insert_timer}

-- The timers in front that are due, and those behind them.
unfoldable pub due_of : ℕ → List TimerEvent → List TimerEvent
due_of now [] = []
due_of now (t ∷ ts) = if leb t.next now then t ∷ due_of now ts else []

unfoldable pub later_of : ℕ → List TimerEvent → List TimerEvent
later_of now [] = []
later_of now (t ∷ ts) = if leb t.next now then later_of now ts else t ∷ ts

-- A called timer goes back among the later ones with its next time, if it has repetitions left.
unfoldable pub put_back : ℕ → TimerEvent → List TimerEvent → List TimerEvent
put_back now t ts = elim (count_down t.reps) [
  | none ↦ ts
  | some reps ↦ insert_timer (renewed now reps t) ts
]

unfoldable pub put_back_all : ℕ → List TimerEvent → List TimerEvent → List TimerEvent
unfolding put_back
put_back_all now [] ts = ts
put_back_all now (t ∷ due) ts = put_back_all now due (put_back now t ts)

-- The timer is not due again at once.
abbrev pub MovesOn : ℕ → TimerEvent → Type 0
MovesOn now t = (0 < t.interval) × (now ≢ t.next + t.interval)

pub split : (now : ℕ) (ts : List TimerEvent) → ts ≡ due_of now ts ++ later_of now ts
unfolding due_of later_of
split now [] = refl
split now (t ∷ ts) = elim (Bool-cases (leb t.next now)) [
  | inl e ↦ rw e (ap (λ l. t ∷ l) (split now ts))
  | inr e ↦ rw e
]

pub due_of-All : (now : ℕ) (ts : List TimerEvent) → All (λ t. t.next ≤ now) (due_of now ts)
unfolding due_of
due_of-All now [] = tt
due_of-All now (t ∷ ts) = elim (Bool-cases (leb t.next now)) [
  | inl e ↦ rw e (leb→le t.next now e, due_of-All now ts)
  | inr e ↦ rw e tt
]

SortedFrom-All :
    (now n : ℕ) (ts : List TimerEvent) → now < n → SortedFrom n ts → All (λ t. now < t.next) ts
SortedFrom-All now n [] h s = tt
SortedFrom-All now n (t ∷ ts) h s =
    (omega (arith, s.0), SortedFrom-All now t.next ts (omega (arith, s.0)) s.1)

pub later_of-All :
    (now n : ℕ) (ts : List TimerEvent) → SortedFrom n ts → All (λ t. now < t.next) (later_of now ts)
unfolding later_of
later_of-All now n [] s = tt
later_of-All now n (t ∷ ts) s = elim (Bool-cases (leb t.next now)) [
  | inl e ↦ rw e (later_of-All now t.next ts s.1)
  | inr e ↦ let h : now < t.next = ground arith in rw e (h, SortedFrom-All now t.next ts h s.1)
]

pub later_of-SortedFrom :
    (now n : ℕ) (ts : List TimerEvent) → SortedFrom n ts → SortedFrom 0 (later_of now ts)
unfolding later_of
later_of-SortedFrom now n [] s = tt
later_of-SortedFrom now n (t ∷ ts) s = elim (Bool-cases (leb t.next now)) [
  | inl e ↦ rw e (later_of-SortedFrom now t.next ts s.1)
  | inr e ↦ rw e (omega arith, s.1)
]

insert_timer-append :
    (t : TimerEvent) (due later : List TimerEvent)
    → All (λ u. u.next ≤ t.next) due
    → insert_timer t (due ++ later) ≡ due ++ insert_timer t later
unfolding insert_timer
insert_timer-append t [] later h = refl
insert_timer-append t (u ∷ due) later h =
    let e : ltb t.next u.next ≡ false = ground (arith, h.0) in
    rw e (ap (λ l. u ∷ l) (insert_timer-append t due later h.1))

insert_timer-All :
    (P : TimerEvent → Type 0) (t : TimerEvent) (ts : List TimerEvent)
    → P t
    → All P ts
    → All P (insert_timer t ts)
unfolding insert_timer
insert_timer-All P t [] p h = (p, tt)
insert_timer-All P t (u ∷ ts) p h = elim (Bool-cases (ltb t.next u.next)) [
  | inl e ↦ rw e (p, h)
  | inr e ↦ rw e (h.0, insert_timer-All P t ts p h.1)
]

refs_behind :
    (r : ℕ) (u : TimerEvent) (ts : List TimerEvent)
    → (u.ref == r) ≡ false
    → 0 < refs r (u ∷ ts)
    → 0 < refs r ts
unfolding refs
refs_behind r u ts e k = ground arith

pub find_timer-All :
    (P : TimerEvent → Type 0) (r : ℕ) (ts : List TimerEvent)
    → All P ts
    → 0 < refs r ts
    → (u : TimerEvent) × (find_timer r ts ≡ some u) × P u
unfolding find_timer refs
find_timer-All P r [] h k = absurd (omega arith)
find_timer-All P r (u ∷ ts) h k = elim (Bool-cases (u.ref == r)) [
  | inl e ↦ (u, rw e, h.0)
  | inr e ↦ let (v, f, p) = find_timer-All P r ts h.1 (refs_behind r u ts e k) in (v, rw (e, f), p)
]

renewed-lt :
    (now : ℕ) (reps : Reps) (t : TimerEvent) → MovesOn now t → now < (renewed now reps t).next
renewed-lt now reps t h = ground (arith, h.0, h.1)

-- What `put_back` keeps of the timers that are due later.
pub record Keeps (now r : ℕ) (ts us : List TimerEvent) : Type 0 where
  pub after_now : All (λ t. now < t.next) us
  pub sorted : IsSorted us
  pub there : refs r ts ≤ refs r us

pub put_back-Keeps :
    (now r : ℕ) (t : TimerEvent) (ts : List TimerEvent)
    → MovesOn now t
    → All (λ t. now < t.next) ts
    → IsSorted ts
    → Keeps now r ts (put_back now t ts)
unfolding put_back
put_back-Keeps now r t ts h a s = elim (Option-cases (count_down t.reps)) [
  | inl e ↦ rw (put_back, e) (record { after_now = a; sorted = s; there = omega arith })
  | inr (reps, e) ↦
      let t' = renewed now reps t in
      rw (put_back, e)
        (record {
          after_now = insert_timer-All (λ t. now < t.next) t' ts (renewed-lt now reps t h) a;
          sorted = insert_timer-SortedFrom 0 t' ts (omega arith) s;
          there = omega (arith, refs-insert_timer r t' ts);
        })
]

pub put_back_all-Keeps :
    (now : ℕ) (due ts : List TimerEvent)
    → All (MovesOn now) due
    → All (λ t. now < t.next) ts
    → IsSorted ts
    → Keeps now 0 [] (put_back_all now due ts)
unfolding put_back_all refs
put_back_all-Keeps now [] ts h a s = record { after_now = a; sorted = s; there = omega arith }
put_back_all-Keeps now (t ∷ due) ts h a s =
    let k = put_back-Keeps now 0 t ts h.0 a s in
    put_back_all-Keeps now due (put_back now t ts) h.1 k.after_now k.sorted

-- Where the loop stands: at the first due timer, or, behind them, at the end or at some later
-- timer.
unfoldable pub Points : Option ℕ → List TimerEvent → List TimerEvent → Type 0
Points p [] later = (p ≡ none) ⊎ ((r : ℕ) × (p ≡ some r) × (0 < refs r later))
Points p (t ∷ due) later = p ≡ some t.ref

pub first-Points : (due later : List TimerEvent) → Points (first (due ++ later)) due later
unfolding Points refs
first-Points [] [] = inl refl
first-Points [] (t ∷ later) = inr (t.ref, refl, ground (arith, ==_refl t.ref))
first-Points (t ∷ due) later = refl

pub put_back-Points :
    (now : ℕ) (t : TimerEvent) (p : Option ℕ) (due later : List TimerEvent)
    → MovesOn now t
    → All (λ t. now < t.next) later
    → IsSorted later
    → Points p due later
    → Points p due (put_back now t later)
unfolding Points
put_back-Points now t p [] later h a s (inl e) = inl e
put_back-Points now t p [] later h a s (inr (r, e, k)) =
    inr (r, e, omega (arith, (put_back-Keeps now r t later h a s).there))
put_back-Points now t p (u ∷ due) later h a s e = e

-- The clock and the callbacks of this file.
abbrev pub quiet : ℕ → State → List TimerCall
quiet hook s = []

abbrev pub with_timers : State → List TimerEvent → State
with_timers s ts = record s { timers = ts }

due-le :
    (now n : ℕ) (ts : List TimerEvent)
    → now < n
    → All (λ u. u.next ≤ now) ts
    → All (λ u. u.next ≤ n) ts
due-le now n [] h a = tt
due-le now n (t ∷ ts) h a = (omega (arith, a.0), due-le now n ts h a.1)

pub requeue-put_back :
    (t : TimerEvent) (due later : List TimerEvent) (s : State)
    → MovesOn s.now t
    → All (λ u. u.next ≤ s.now) due
    → requeue t (with_timers s (t ∷ due ++ later)) ≡ with_timers s (due ++ put_back s.now t later)
unfolding requeue put_back remove_timer
requeue-put_back t due later s h d = elim (Option-cases (count_down t.reps)) [
  | inl e ↦ rw (requeue, e, destroy_timer, ==_refl t.ref, put_back)
  | inr (reps, e) ↦
      let t' = renewed s.now reps t in
      let i =
        insert_timer-append t' due later (due-le s.now t'.next due (renewed-lt s.now reps t h) d) in
      rw (requeue, e, ==_refl t.ref, put_back) (ap (with_timers s) i)
]
