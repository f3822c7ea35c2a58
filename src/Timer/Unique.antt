-- ===== src/Timer/Unique.antt =====
-- The reference that `create_timer` gives is not in use.
use ithildin.Base.{
  ◌⊎◌, ℕ, zero, suc, ◌+◌, ◌%◌, ◌≤◌, ◌<◌, ◌≡◌, refl, ◌≢◌, inl, inr, Bool, true, false, Option, none,
  some, List, arith, ◌==◌, if◌then◌else◌, ==_iff, Bool-cases, Option-cases, length,
}
use ithildin.Timer.{
  TimerEvent, State, u64, timer_invalid, insert_timer, next_ref, take_ref, create_timer, reps_of,
}
use ithildin.Timer.Order.{
  IsSorted, insert_timer-SortedFrom, refs, refs-insert_timer, find_timer-refs,
}
use ithildin.Timer.Turns.{AllUsed, turns, used-le-length, length-turns, turns-Apart}

next_ref-none :
    (fuel : ℕ) (ts : List TimerEvent) (r : ℕ)
    → next_ref fuel ts r ≡ none
    → AllUsed ts (turns fuel r)
unfolding next_ref
next_ref-none zero ts r e = tt
next_ref-none (suc fuel) ts r e =
    ground (arith, find_timer-refs r ts, next_ref-none fuel ts ((r + 1) % u64))

next_ref-some :
    (fuel : ℕ) (ts : List TimerEvent) (r ref cnt : ℕ)
    → next_ref fuel ts r ≡ some (ref, cnt)
    → r < u64
    → (refs ref ts ≡ 0) × (ref < u64) × (cnt ≡ (ref + 1) % u64)
unfolding next_ref
next_ref-some zero ts r ref cnt e h = cc
next_ref-some (suc fuel) ts r ref cnt e h =
    ground (arith, find_timer-refs r ts, next_ref-some fuel ts ((r + 1) % u64) ref cnt)

-- With more rounds than timers the search for a free reference ends.
next_ref_total :
    (fuel : ℕ) (ts : List TimerEvent) (r : ℕ)
    → length ts < fuel
    → fuel ≤ u64
    → r < u64
    → (ref cnt : ℕ) × (next_ref fuel ts r ≡ some (ref, cnt))
      × (refs ref ts ≡ 0)
      × (ref < u64)
      × (cnt ≡ (ref + 1) % u64)
next_ref_total fuel ts r h k p = elim (Option-cases (next_ref fuel ts r)) [
  | inl e ↦ absurd (
      omega (
        arith,
        used-le-length ts (turns fuel r) (turns-Apart fuel r k p) (next_ref-none fuel ts r e),
        length-turns fuel r,
      ))
  | inr ((ref, cnt), e) ↦
      (let (free, low, step) = next_ref-some fuel ts r ref cnt e p in
        (ref, cnt, e, free, low, step))
]

-- Before the counter has come round, the references in use lie below it.
abbrev pub IsFresh : State → Type 0
IsFresh s = s.rollover ≡ false → (r : ℕ) → s.refcnt ≤ r → refs r s.timers ≡ 0

-- What `take_ref` gives.
record Taken (s : State) (ref cnt : ℕ) (rollover : Bool) : Type 0 where
  free : refs ref s.timers ≡ 0
  valid : (s.rollover ≡ true) ⊎ (s.refcnt ≡ timer_invalid) ⊎ (ref ≢ timer_invalid)
  below : rollover ≡ false → (s.rollover ≡ false) × (ref ≡ s.refcnt) × (cnt ≡ s.refcnt + 1)
  bound : cnt < u64

take_ref-Taken :
    (fuel : ℕ) (s : State)
    → length s.timers < fuel
    → fuel ≤ u64
    → s.refcnt < u64
    → IsFresh s
    → (ref cnt : ℕ) × (rollover : Bool) × (take_ref fuel s ≡ some (ref, cnt, rollover))
      × Taken s ref cnt rollover
unfolding take_ref
take_ref-Taken fuel s h k c fresh = elim (Bool-cases s.rollover) [
  | inl e ↦
      let (ref, cnt, run, free, low, step) = next_ref_total fuel s.timers s.refcnt h k c in
      (
        ref,
        cnt,
        true,
        rw (e, run),
        record { free = free; valid = inl e; below = λ f. cc; bound = omega arith },
      )
  | inr e ↦ elim (Bool-cases (s.refcnt == timer_invalid)) [
    | inl last ↦
        let (ref, cnt, run, free, low, step) =
          next_ref_total fuel s.timers ((s.refcnt + 1) % u64) h k (omega arith) in
        (
          ref,
          cnt,
          true,
          rw (e, last, run),
          record {
            free = free;
            valid = inr (inl ((==_iff s.refcnt timer_invalid).0 last));
            below = λ f. cc;
            bound = omega arith;
          },
        )
    | inr more ↦ (
      s.refcnt,
      (s.refcnt + 1) % u64,
      false,
      rw (e, more, not_round more),
      record {
        free = fresh e s.refcnt (omega arith);
        valid = inr (inr (ground arith));
        below = λ f. (e, refl, round more);
        bound = omega arith;
      },
    )
  ]
]
  where
    round : (s.refcnt == timer_invalid) ≡ false → (s.refcnt + 1) % u64 ≡ s.refcnt + 1
    round n = ground arith

    not_round : (s.refcnt == timer_invalid) ≡ false → ((s.refcnt + 1) % u64 == 0) ≡ false
    not_round n = ground (arith, round n)

-- On a sorted list of fewer than 2 ^ 64 timers, where the counter is ahead of the references in use
-- until it has come round, `create_timer` ends within one round more than there are timers. The
-- reference that it returns was in no timer, and is in one now; it is not the invalid one unless
-- the counter has come round or stands at it. The list stays sorted, the other references stay, and
-- the counter stays ahead.
pub create_timer_lem :
    (fuel : ℕ) (rep : Option ℕ) (interval hook : ℕ) (s : State)
    → length s.timers < fuel
    → fuel ≤ u64
    → s.refcnt < u64
    → IsFresh s
    → IsSorted s.timers
    → (ref : ℕ) × (u : State) × (create_timer fuel rep interval hook s ≡ some (ref, u))
      × (refs ref s.timers ≡ 0)
      × ((s.rollover ≡ true) ⊎ (s.refcnt ≡ timer_invalid) ⊎ (ref ≢ timer_invalid))
      × ((r : ℕ) → refs r u.timers ≡ (if ref == r then 1 else 0) + refs r s.timers)
      × IsSorted u.timers
      × IsFresh u
      × (u.refcnt < u64)
unfolding create_timer
create_timer_lem fuel rep interval hook s h k c fresh sorted =
    let (ref, cnt, rollover, run, t) = take_ref-Taken fuel s h k c fresh in
    let tep : TimerEvent = record {
      ref = ref;
      reps = reps_of rep;
      interval = interval;
      next = s.now + interval;
      hook = hook;
    } in
    let more = λ (r : ℕ). refs-insert_timer r tep s.timers in
    (
      ref,
      record s { timers = insert_timer tep s.timers; refcnt = cnt; rollover = rollover },
      rw (run, create_timer),
      t.free,
      t.valid,
      more,
      insert_timer-SortedFrom 0 tep s.timers (omega arith) sorted,
      λ e r b. ground (arith, more r, t.below e, fresh (t.below e).0 r),
      t.bound,
    )
