-- ===== src/Tests/Timer.antt =====
-- source/timer.c at two timers.
use ithildin.Base.{
  List, All, refl, ℕ, ◌+◌, ◌-◌, ◌<◌, ◌≡◌, ◌≢◌, ◌⊎◌, true, false, none, some, [], ◌∷◌, arith, ◌==◌,
  if◌then◌else◌,
}
use ithildin.Timer.{
  Reps, TimerEvent, State, create_timer, destroy_timer, adjust_timer, timer_invalid, u64,
}
use ithildin.Timer.Order.{IsSorted, refs, adjust_timer-IsSorted}
use ithildin.Timer.Due.{MovesOn, due_of, quiet}
use ithildin.Timer.Exec.{TimerCall, destroys, exec_timers, ran, freed, wait_for}
use ithildin.Timer.Runs.{Runs, exec_timers-Runs, exec_timers-freed}
use ithildin.Timer.Unique.{IsFresh, create_timer_lem}

abbrev early : TimerEvent
early = record { ref = 1; reps = Reps.repeat; interval = 3; next = 4; hook = 8 }

abbrev late : TimerEvent
late = record { ref = 0; reps = Reps.times 2; interval = 9; next = 9; hook = 7 }

abbrev two_timers : State
two_timers = record { timers = early ∷ late ∷ []; refcnt = 2; rollover = false; now = 1 }

two_timers-IsFresh : IsFresh two_timers
unfolding refs
two_timers-IsFresh e r h = ground arith

two_timers-IsSorted : IsSorted two_timers.timers
two_timers-IsSorted = omega arith

create_timer_lem_example :
    (ref : ℕ) × (u : State) × (create_timer 3 none 5 6 two_timers ≡ some (ref, u))
    × (refs ref two_timers.timers ≡ 0)
    × ((two_timers.rollover ≡ true) ⊎ (two_timers.refcnt ≡ timer_invalid) ⊎ (ref ≢ timer_invalid))
    × ((r : ℕ) → refs r u.timers ≡ (if ref == r then 1 else 0) + refs r two_timers.timers)
    × IsSorted u.timers
    × IsFresh u
    × (u.refcnt < u64)
create_timer_lem_example =
    create_timer_lem 3 none 5 6 two_timers (omega arith) (omega arith) (omega arith)
      two_timers-IsFresh two_timers-IsSorted

adjust_timer-IsSorted_example :
    IsSorted (destroy_timer 1 two_timers).timers
    × IsSorted (adjust_timer 1 (some 4) 20 two_timers).timers
    × ((r : ℕ)
        → (refs r (destroy_timer 1 two_timers).timers
            ≡ refs r two_timers.timers - (if 1 == r then 1 else 0))
          × (refs r (adjust_timer 1 (some 4) 20 two_timers).timers ≡ refs r two_timers.timers))
adjust_timer-IsSorted_example = adjust_timer-IsSorted 1 20 (some 4) two_timers two_timers-IsSorted

two_timers-MovesOn : All (MovesOn 9) (due_of 9 two_timers.timers)
unfolding due_of
two_timers-MovesOn = omega arith

exec_timers-Runs_example :
    (t : State) × (log : List ℕ) × (exec_timers (λ k. 9) quiet 3 two_timers
      ≡ ran t log (wait_for t))
    × Runs 9 two_timers t log
unfolding due_of
exec_timers-Runs_example =
    exec_timers-Runs 3 9 two_timers two_timers-IsSorted two_timers-MovesOn (omega arith)

-- A callback that destroys the timer of its own.
abbrev ends_itself : ℕ → State → List TimerCall
ends_itself hook s = destroys 1 ∷ []

exec_timers-freed_example : exec_timers (λ k. 9) ends_itself 1 two_timers ≡ freed
unfolding refs
exec_timers-freed_example =
    exec_timers-freed (λ k. 9) ends_itself 0 early (late ∷ []) two_timers (omega arith)
      (omega arith) refl
