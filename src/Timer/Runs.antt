-- ===== src/Timer/Runs.antt =====
-- `exec_timers` while the clock stands still and the callbacks leave the timers alone, and where
-- a callback destroys its own timer.
use ithildin.Base.{
  ℕ, zero, suc, ◌≤◌, ◌<◌, ◌≡◌, refl, ap, ◌∙◌, inl, inr, true, false, Option, none, some, List, [],
  ◌∷◌, ◌++◌, map, append-nil, append_assoc, arith, leb, ==_refl, length, All,
}
use ithildin.Timer.{TimerEvent, State, find_timer, remove_timer, destroy_timer}
use ithildin.Timer.Exec.{
  TimerCall, destroys, grant_all, grant, first, next_timer, requeue, wait_for, ran, freed,
  exec_loop, exec_timers,
}
use ithildin.Timer.Order.{IsSorted, refs, find_timer-refs}
use ithildin.Timer.Due.{
  due_of, later_of, put_back, put_back_all, MovesOn, split, due_of-All, later_of-All,
  later_of-SortedFrom, find_timer-All, put_back-Keeps, put_back_all-Keeps, Points, first-Points,
  put_back-Points, requeue-put_back, quiet, with_timers,
}

find_timer_head : (t : TimerEvent) (ts : List TimerEvent) → find_timer t.ref (t ∷ ts) ≡ some t
unfolding find_timer
find_timer_head t ts = ground (arith, ==_refl t.ref)

next_timer_head : (t : TimerEvent) (ts : List TimerEvent) → next_timer t.ref (t ∷ ts) ≡ first ts
unfolding next_timer
next_timer_head t ts = ground (arith, ==_refl t.ref)

module _ (time : ℕ → ℕ) (call : ℕ → State → List TimerCall) where
  -- A round at a due timer that its callback leaves there, and one at a timer that it does not.
  exec_loop_step :
      (fuel k ref : ℕ) (tep tep' : TimerEvent) (s : State) (log : List ℕ)
      → find_timer ref s.timers ≡ some tep
      → leb tep.next s.now ≡ true
      → find_timer ref (grant_all (call tep.hook s) s).timers ≡ some tep'
      → exec_loop time call (suc fuel) k (some ref) s log
        ≡ exec_loop time call fuel
            (suc k)
            (next_timer ref s.timers)
            (record (requeue tep' (grant_all (call tep.hook s) s)) { now = time k })
            (log ++ (ref ∷ []))
  unfolding exec_loop
  exec_loop_step fuel k ref tep tep' s log f on g = rw (exec_loop, f, on, g)

  exec_loop_gone :
      (fuel k ref : ℕ) (tep : TimerEvent) (s : State) (log : List ℕ)
      → find_timer ref s.timers ≡ some tep
      → leb tep.next s.now ≡ true
      → find_timer ref (grant_all (call tep.hook s) s).timers ≡ none
      → exec_loop time call (suc fuel) k (some ref) s log ≡ freed
  unfolding exec_loop
  exec_loop_gone fuel k ref tep s log f on g = rw (exec_loop, f, on, g)

exec_loop-quiet :
    (fuel k : ℕ) (p : Option ℕ) (due later : List TimerEvent) (s : State) (log : List ℕ)
    → length due < fuel
    → All (λ u. u.next ≤ s.now) due
    → All (MovesOn s.now) due
    → All (λ u. s.now < u.next) later
    → IsSorted later
    → Points p due later
    → let t = with_timers s (put_back_all s.now due later) in
      exec_loop (λ k. s.now) quiet fuel k p (with_timers s (due ++ later)) log
      ≡ ran t (log ++ map (λ u. u.ref) due) (wait_for t)
unfolding exec_loop put_back_all Points grant_all
exec_loop-quiet zero k p due later s log f d m a o e = absurd (omega arith)
exec_loop-quiet (suc fuel) k p [] later s log f d m a o (inl e) = rw (e, append-nil log)
exec_loop-quiet (suc fuel) k p [] later s log f d m a o (inr (r, e, h)) =
    let (u, found, next) = find_timer-All (λ u. s.now < u.next) r later a h in
    let stop : leb u.next s.now ≡ false = ground arith in
    rw (e, exec_loop, found, stop, append-nil log)
exec_loop-quiet (suc fuel) k p (t ∷ due) later s log f d m a o e =
    let on : leb t.next s.now ≡ true = ground (arith, d.0) in
    let later' = put_back s.now t later in
    let k' = put_back-Keeps s.now 0 t later m.0 a o in
    let final = with_timers s (put_back_all s.now due later') in
    let ih =
      exec_loop-quiet fuel (suc k) (first (due ++ later)) due later' s (log ++ (t.ref ∷ []))
        (omega arith) d.1 m.1 k'.after_now k'.sorted
        (put_back-Points s.now t _ due later m.0 a o (first-Points due later)) in
    let here = find_timer_head t (due ++ later) in
    let round =
      exec_loop_step (λ k. s.now) quiet fuel k t.ref t t (with_timers s (t ∷ due ++ later)) log here
        on here in
    let round' =
      rw (next_timer_head t (due ++ later), requeue-put_back t due later s m.0 d.1) at round in
    rw e round'
    ∙ ih
    ∙ ap (λ l. ran final l (wait_for final)) (append_assoc log (t.ref ∷ []) (map (λ u. u.ref) due))

-- How a run of the timers `s` at the time `now` ends.
pub record Runs (now : ℕ) (s t : State) (log : List ℕ) : Type 0 where
  pub called : log ≡ map (λ u. u.ref) (due_of now s.timers)
  pub timers : t.timers ≡ put_back_all now (due_of now s.timers) (later_of now s.timers)
  pub sorted : IsSorted t.timers
  pub after_now : All (λ u. now < u.next) t.timers

-- While the clock stands still and the callbacks leave the timers alone, on a sorted list whose
-- due timers have intervals above 0 and are not late by exactly one interval, `exec_timers` ends
-- within one round more than there are due timers. It calls the due timers in their order, each
-- once, puts those with repetitions left back with their next times, leaves the list sorted with
-- no timer due, and returns the time until the first of them.
pub exec_timers-Runs :
    (fuel now : ℕ) (s : State)
    → IsSorted s.timers
    → All (MovesOn now) (due_of now s.timers)
    → length (due_of now s.timers) < fuel
    → (t : State) × (log : List ℕ) × (exec_timers (λ k. now) quiet fuel s ≡ ran t log (wait_for t))
      × Runs now s t log
unfolding exec_timers
exec_timers-Runs fuel now s o m f =
    let due = due_of now s.timers in
    let later = later_of now s.timers in
    let a = later_of-All now 0 s.timers o in
    let l = later_of-SortedFrom now 0 s.timers o in
    let keeps = put_back_all-Keeps now due later m a l in
    let s' = record s { now = now } in
    let t = with_timers s' (put_back_all now due later) in
    let run =
      exec_loop-quiet fuel 1 (first (due ++ later)) due later s' [] f (due_of-All now s.timers) m a
        l (first-Points due later) in
    (
      t,
      map (λ u. u.ref) due,
      ap (λ ts. exec_loop (λ k. now) quiet fuel 1 (first ts) (with_timers s' ts) [])
            (split now s.timers)
          ∙ run,
      record { called = refl; timers = refl; sorted = keeps.sorted; after_now = keeps.after_now },
    )

-- Where the callback of the first timer, which is due, destroys that timer, and no other has its
-- reference, `exec_timers` reads the timer after it was freed.
pub exec_timers-freed :
    (time : ℕ → ℕ) (call : ℕ → State → List TimerCall) (fuel : ℕ) (tep : TimerEvent)
    (timers : List TimerEvent) (s : State)
    → tep.next ≤ time 0
    → refs tep.ref timers ≡ 0
    → call tep.hook (record s { timers = tep ∷ timers; now = time 0 }) ≡ destroys tep.ref ∷ []
    → exec_timers time call (suc fuel) (with_timers s (tep ∷ timers)) ≡ freed
unfolding exec_timers exec_loop grant_all grant find_timer destroy_timer remove_timer
exec_timers-freed time call fuel tep timers s d u c =
    let on : leb tep.next (time 0) ≡ true = ground (arith, d) in
    let gone : find_timer tep.ref timers ≡ none = (find_timer-refs tep.ref timers).1 u in
    let s'' : State = with_timers (record s { now = time 0 }) (tep ∷ timers) in
    let here = find_timer_head tep timers in
    let gone' : find_timer tep.ref (grant_all (destroys tep.ref ∷ []) s'').timers ≡ none =
      rw (==_refl tep.ref) gone in
    exec_loop_gone time call fuel 1 tep.ref tep s'' [] here on (rw c gone')
