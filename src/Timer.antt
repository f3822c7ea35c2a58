-- ===== src/Timer.antt =====
-- source/timer.c: the list of timers. The list `me.timers`, the counter of references, its
-- rollover flag and the time `me.now` are one state; a timer is named by its place in the list
-- or its reference, and its callback and data by one number.
pub mod Due
pub mod Exec
pub mod Order
pub mod Runs
pub mod Turns
pub mod Unique
use ithildin.Base.{
  ℕ, zero, suc, ◌+◌, ◌-◌, ◌%◌, ◌^◌, Bool, true, Option, none, some, List, [], ◌∷◌, ltb, ◌==◌,
  if◌then◌else◌,
}

-- The repetitions left: a count, or `TIMER_REPEAT` (-2).
pub data Reps : Type 0 where
  times : ℕ → Reps
  repeat : Reps

-- `struct timer_event`
pub record TimerEvent : Type 0 where
  pub ref : ℕ
  pub reps : Reps
  pub interval : ℕ
  pub next : ℕ
  pub hook : ℕ

pub record State : Type 0 where
  pub timers : List TimerEvent
  pub refcnt : ℕ
  pub rollover : Bool
  pub now : ℕ

-- 2 ^ 64, the modulus of `timer_ref_t`
abbrev pub u64 : ℕ
u64 = 2 ^ 64

-- `TIMER_INVALID`
abbrev pub timer_invalid : ℕ
timer_invalid = u64 - 1

unfoldable pub find_timer : ℕ → List TimerEvent → Option TimerEvent
find_timer ref [] = none
find_timer ref (tep ∷ timers) = if tep.ref == ref then some tep else find_timer ref timers

-- Before the first timer that is due later, or at the end.
unfoldable pub insert_timer : TimerEvent → List TimerEvent → List TimerEvent
insert_timer timer [] = timer ∷ []
insert_timer timer (tep ∷ timers) =
    if ltb timer.next tep.next then timer ∷ tep ∷ timers else tep ∷ insert_timer timer timers

-- `LIST_REMOVE` of the timer that `find_timer` finds.
unfoldable pub remove_timer : ℕ → List TimerEvent → List TimerEvent
remove_timer ref [] = []
remove_timer ref (tep ∷ timers) = if tep.ref == ref then timers else tep ∷ remove_timer ref timers

-- do ref = refcnt++ while (find_timer(ref) != NULL), the free reference and the counter after it;
-- `none` is fuel run out.
unfoldable pub next_ref : ℕ → List TimerEvent → ℕ → Option (ℕ × ℕ)
next_ref zero timers refcnt = none
next_ref (suc fuel) timers refcnt =
    let again = next_ref fuel timers ((refcnt + 1) % u64) in
    elim (find_timer refcnt timers) [ none ↦ some (refcnt, (refcnt + 1) % u64) | some tep ↦ again ]

abbrev after_rollover : Option (ℕ × ℕ) → Option (ℕ × ℕ × Bool)
after_rollover none = none
after_rollover (some (ref, cnt)) = some (ref, cnt, true)

-- The reference that `create_timer` takes, and the counter and the flag after it. Before a
-- rollover the reference that means "invalid" is skipped, by a second call.
unfoldable pub take_ref : ℕ → State → Option (ℕ × ℕ × Bool)
unfolding next_ref
take_ref fuel s =
    let bumped = (s.refcnt + 1) % u64 in
    if s.rollover
    then after_rollover (next_ref fuel s.timers s.refcnt)
    else if s.refcnt == timer_invalid
    then after_rollover (next_ref fuel s.timers bumped)
    else some (s.refcnt, bumped, bumped == 0)

-- `rep` is `none` where the argument is negative.
abbrev pub reps_of : Option ℕ → Reps
reps_of none = repeat
reps_of (some n) = times n

-- The reference that is returned, and the state after.
unfoldable pub create_timer : ℕ → Option ℕ → ℕ → ℕ → State → Option (ℕ × State)
unfolding insert_timer take_ref
create_timer fuel rep interval hook s = elim (take_ref fuel s) [
  | none ↦ none
  | some (ref, cnt, rollover) ↦
      let tep : TimerEvent = record {
        ref = ref;
        reps = reps_of rep;
        interval = interval;
        next = s.now + interval;
        hook = hook;
      } in
      some (ref, record s { timers = insert_timer tep s.timers; refcnt = cnt; rollover = rollover })
]

unfoldable pub destroy_timer : ℕ → State → State
unfolding remove_timer
destroy_timer ref s = record s { timers = remove_timer ref s.timers }

unfoldable pub adjust_timer : ℕ → Option ℕ → ℕ → State → State
unfolding remove_timer insert_timer find_timer
adjust_timer ref reps interval s = elim (find_timer ref s.timers) [
  | none ↦ s
  | some tep ↦
      let tep' : TimerEvent = record tep {
        reps = reps_of reps;
        interval = interval;
        next = s.now + interval;
      } in
      record s { timers = insert_timer tep' (remove_timer ref s.timers) }
]
