-- ===== src/Timer/Order.antt =====
-- The list of timers is sorted by the time that they are due.
use ithildin.Base.{
  ℕ, ◌+◌, ◌-◌, ◌≤◌, ◌≡◌, refl, ◌↔◌, inl, inr, Option, none, some, List, [], ◌∷◌, arith, ltb, ◌==◌,
  if◌then◌else◌, ltb→lt, Bool-cases, Option-cases,
}
use ithildin.Timer.{
  TimerEvent, State, insert_timer, remove_timer, find_timer, destroy_timer, adjust_timer, reps_of,
}

-- No timer is due before `n`, and each is due no later than those behind it.
abbrev pub SortedFrom : ℕ → List TimerEvent → Type 0
SortedFrom n [] = Unit
SortedFrom n (tep ∷ timers) = (n ≤ tep.next) × SortedFrom tep.next timers

abbrev pub IsSorted : List TimerEvent → Type 0
IsSorted = SortedFrom 0

SortedFrom-le : (n m : ℕ) (ts : List TimerEvent) → n ≤ m → SortedFrom m ts → SortedFrom n ts
SortedFrom-le n m [] h s = tt
SortedFrom-le n m (t ∷ ts) h s = (omega arith, s.1)

pub insert_timer-SortedFrom :
    (n : ℕ) (t : TimerEvent) (ts : List TimerEvent)
    → n ≤ t.next
    → SortedFrom n ts
    → SortedFrom n (insert_timer t ts)
unfolding insert_timer
insert_timer-SortedFrom n t [] h s = (h, tt)
insert_timer-SortedFrom n t (u ∷ ts) h s = elim (Bool-cases (ltb t.next u.next)) [
  | inl e ↦ rw e (h, (let k = ltb→lt t.next u.next e in omega arith, s.1))
  | inr e ↦ rw e (s.0, insert_timer-SortedFrom u.next t ts (ground arith) s.1)
]

pub remove_timer-SortedFrom :
    (n ref : ℕ) (ts : List TimerEvent) → SortedFrom n ts → SortedFrom n (remove_timer ref ts)
unfolding remove_timer
remove_timer-SortedFrom n ref [] s = tt
remove_timer-SortedFrom n ref (u ∷ ts) s = elim (Bool-cases (u.ref == ref)) [
  | inl e ↦ rw e (SortedFrom-le n u.next ts s.0 s.1)
  | inr e ↦ rw e (s.0, remove_timer-SortedFrom u.next ref ts s.1)
]

-- How many timers have a reference.
unfoldable pub refs : ℕ → List TimerEvent → ℕ
refs ref [] = 0
refs ref (t ∷ ts) = (if t.ref == ref then 1 else 0) + refs ref ts

pub refs-insert_timer :
    (ref : ℕ) (t : TimerEvent) (ts : List TimerEvent)
    → refs ref (insert_timer t ts) ≡ (if t.ref == ref then 1 else 0) + refs ref ts
unfolding refs insert_timer
refs-insert_timer ref t [] = refl
refs-insert_timer ref t (u ∷ ts) = ground (arith, refs-insert_timer ref t ts)

pub refs-remove_timer :
    (ref r : ℕ) (ts : List TimerEvent)
    → refs ref (remove_timer r ts) ≡ refs ref ts - (if r == ref then 1 else 0)
unfolding refs remove_timer
refs-remove_timer ref r [] = ground arith
refs-remove_timer ref r (u ∷ ts) = ground (arith, refs-remove_timer ref r ts)

pub find_timer-refs :
    (ref : ℕ) (ts : List TimerEvent) → (find_timer ref ts ≡ none) ↔ (refs ref ts ≡ 0)
unfolding refs find_timer
find_timer-refs ref [] = ground arith
find_timer-refs ref (u ∷ ts) = ground (arith, find_timer-refs ref ts)

find_timer_ref :
    (ref : ℕ) (ts : List TimerEvent) (t : TimerEvent) → find_timer ref ts ≡ some t → t.ref ≡ ref
unfolding find_timer
find_timer_ref ref [] t e = cc
find_timer_ref ref (u ∷ ts) t e = ground (arith, find_timer_ref ref ts t)

-- `destroy_timer` and `adjust_timer` keep the list sorted; the first takes one timer with the
-- reference out, if there is one, and the second keeps each reference as often as it was.
pub adjust_timer-IsSorted :
    (ref interval : ℕ) (reps : Option ℕ) (s : State)
    → IsSorted s.timers
    → IsSorted (destroy_timer ref s).timers
      × IsSorted (adjust_timer ref reps interval s).timers
      × ((r : ℕ)
          → (refs r (destroy_timer ref s).timers ≡ refs r s.timers - (if ref == r then 1 else 0))
            × (refs r (adjust_timer ref reps interval s).timers ≡ refs r s.timers))
unfolding destroy_timer adjust_timer
adjust_timer-IsSorted ref interval reps s h = elim (Option-cases (find_timer ref s.timers)) [
  | inl e ↦ (
    remove_timer-SortedFrom 0 ref s.timers h,
    rw (e, adjust_timer) h,
    λ r. (refs-remove_timer r ref s.timers, rw (e, adjust_timer)),
  )
  | inr (t, e) ↦ (
    remove_timer-SortedFrom 0 ref s.timers h,
    rw (e, adjust_timer)
        (insert_timer-SortedFrom 0 _ (remove_timer ref s.timers) (omega arith)
          (remove_timer-SortedFrom 0 ref s.timers h)),
    λ r. (
      refs-remove_timer r ref s.timers,
      rw (e, adjust_timer)
          (ground (
            arith,
            refs-insert_timer r
                (record t { reps = reps_of reps; interval = interval; next = s.now + interval })
                (remove_timer ref s.timers),
            refs-remove_timer r ref s.timers,
            find_timer_ref ref s.timers t e,
            find_timer-refs ref s.timers,
          )),
    ),
  )
]
