-- ===== src/Timer/Exec.antt =====
-- source/timer.c: `exec_timers`. A pointer to a timer is its reference, and following one whose
-- timer is not there any more reads memory that is free. The clock is a parameter: `time k` is
-- what the call number `k` of `time` gives; and so are the callbacks: what one asks of the
-- timers.
use ithildin.Base.{
  ℕ, zero, suc, ◌+◌, Option, none, some, List, [], ◌∷◌, ◌++◌, ltb, leb, ◌==◌, if◌then◌else◌, length,
  ℤ, pos, sub_ℕ,
}
use ithildin.Timer.{
  Reps, times, repeat, TimerEvent, State, find_timer, insert_timer, remove_timer, create_timer,
  destroy_timer, adjust_timer,
}

pub data TimerCall : Type 0 where
  creates : Option ℕ → ℕ → ℕ → TimerCall
  destroys : ℕ → TimerCall
  adjusts : ℕ → Option ℕ → ℕ → TimerCall

unfoldable pub grant : TimerCall → State → State
unfolding create_timer destroy_timer adjust_timer
grant (creates rep interval hook) s =
    elim (create_timer (suc (length s.timers)) rep interval hook s) [ none ↦ s | some (ref, t) ↦ t ]
grant (destroys ref) s = destroy_timer ref s
grant (adjusts ref reps interval) s = adjust_timer ref reps interval s

unfoldable pub grant_all : List TimerCall → State → State
unfolding grant
grant_all [] s = s
grant_all (q ∷ qs) s = grant_all qs (grant q s)

abbrev pub first : List TimerEvent → Option ℕ
first [] = none
first (tep ∷ timers) = some tep.ref

-- LIST_NEXT of the timer with a reference.
unfoldable pub next_timer : ℕ → List TimerEvent → Option ℕ
next_timer ref [] = none
next_timer ref (tep ∷ timers) = if tep.ref == ref then first timers else next_timer ref timers

-- --reps == TIMER_DEAD; none is dead.
abbrev pub count_down : Reps → Option Reps
count_down repeat = some repeat
count_down (times zero) = none
count_down (times (suc n)) = some (times n)

-- if ((next += interval) < now) next = now + interval
abbrev pub renewed : ℕ → Reps → TimerEvent → TimerEvent
renewed now reps tep =
    let next = tep.next + tep.interval in
    record tep { reps = reps; next = if ltb next now then now + tep.interval else next }

-- What becomes of a timer whose callback has been called.
unfoldable pub requeue : TimerEvent → State → State
unfolding destroy_timer insert_timer remove_timer
requeue tep s = elim (count_down tep.reps) [
  | none ↦ destroy_timer tep.ref s
  | some reps ↦ record s {
    timers = insert_timer (renewed s.now reps tep) (remove_timer tep.ref s.timers);
  }
]

abbrev pub wait_for : State → ℤ
wait_for s = elim s.timers [ [] ↦ pos 0 | tep ∷ timers ↦ sub_ℕ tep.next s.now ]

-- The state after, the timers that were called, and what is returned; a timer read after it was
-- freed; or fuel run out.
pub data Exec : Type 0 where
  ran : State → List ℕ → ℤ → Exec
  freed unfinished : Exec

module _ (time : ℕ → ℕ) (call : ℕ → State → List TimerCall) where
  unfoldable pub exec_loop : ℕ → ℕ → Option ℕ → State → List ℕ → Exec
  unfolding grant_all requeue next_timer find_timer
  exec_loop zero k tep s log = unfinished
  exec_loop (suc fuel) k none s log = ran s log (wait_for s)
  exec_loop (suc fuel) k (some ref) s log = elim (find_timer ref s.timers) [
    | none ↦ freed
    | some tep ↦
        let s' = grant_all (call tep.hook s) s in
        let rest : TimerEvent → Exec = λ tep'.
          exec_loop fuel (suc k) (next_timer ref s.timers)
            (record (requeue tep' s') { now = time k }) (log ++ (ref ∷ [])) in
        if leb tep.next s.now
        then elim (find_timer ref s'.timers) [ none ↦ freed | some tep' ↦ rest tep' ]
        else ran s log (wait_for s)
  ]

  unfoldable pub exec_timers : ℕ → State → Exec
  unfolding exec_loop
  exec_timers fuel s = exec_loop fuel 1 (first s.timers) (record s { now = time 0 }) []
