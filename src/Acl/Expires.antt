-- ===== src/Acl/Expires.antt =====
-- The timer of an entry, from its start to the end of the entry.
use ithildin.Base.{
  ℕ, ◌≤◌, ◌<◌, ◌≡◌, refl, sym, ◌∙◌, subst, ◌≢◌, Option, some, arith, ==_refl, length,
}
use ithildin.Timer
use ithildin.Timer.{u64, timer_invalid}
use ithildin.Timer.Order.{IsSorted, refs}
use ithildin.Timer.Unique.{IsFresh, create_timer_lem}
use ithildin.Acl.Entry.{Acl, State}
use ithildin.Acl.Expire.{arm, entry, write_entry, acl_add_timer, acl_timer_hook}
use ithildin.Acl.Order.{occurs}
use ithildin.Acl.Valid.{IsValid}
use ithildin.Acl.Gone.{entry-some, acl_timer_hook-Removes}
use ithildin.Acl.Written.{write_entry-IsValid}

module _ (fuel id expire : ℕ) (ap : Acl) (s : State) (v : IsValid s) (there : entry id s ≡ some ap)
    (no_timer : ap.timer ≡ timer_invalid) (enough : length s.timers.timers < fuel)
    (small : fuel ≤ u64) (bounded : s.timers.refcnt < u64) (fresh : IsFresh s.timers)
    (sorted : IsSorted s.timers.timers) where
  -- What `acl_add_timer` gives, and then the hook of the timer.
  pub record Expires (ref : ℕ) (u t : State) : Type 0 where
    pub run : acl_add_timer fuel id expire s ≡ some u
    pub valid : IsValid u
    pub timed : entry id u ≡ some (record ap { expire = expire; timer = ref })
    pub unused : refs ref s.timers.timers ≡ 0
    pub used : refs ref u.timers.timers ≡ 1
    pub end : acl_timer_hook id u ≡ some t
    pub still_valid : IsValid t
    pub gone : occurs id t.list ≡ 0
    pub others : (k : ℕ) → id ≢ k → occurs k t.list ≡ occurs k s.list

  with_timers : (timers : Timer.State) → IsValid (record s { timers = timers })
  with_timers timers = record {
    sorted1 = v.sorted1;
    sorted2 = v.sorted2;
    sorted3 = v.sorted3;
    staged1 = v.staged1;
    staged2 = v.staged2;
    staged3 = v.staged3;
    listed = v.listed;
    single = v.single;
  }

  found : (timers : Timer.State) → ap.id ≡ id → entry ap.id (record s { timers = timers }) ≡ some ap
  unfolding entry
  found timers same = subst (λ k. entry k s ≡ some ap) (sym same) there

  cong_arm : {o o' : Option (ℕ × Timer.State)} → o ≡ o' → arm expire ap s o ≡ arm expire ap s o'
  cong_arm p i = arm expire ap s (p i)

  -- For an entry of valid lists that has no timer, with sorted timers whose counter is ahead of the
  -- references in use and with a round more than there are timers, acl_add_timer ends: the entry
  -- has a new timer, and the lists stay valid. The hook of the timer then takes the entry out of
  -- the lists, which stay valid, and no other.
  pub acl_add_timer-Expires : (ref : ℕ) × (u t : State) × Expires ref u t
  unfolding acl_add_timer arm
  acl_add_timer-Expires =
      let (ref, timers, run, free, known, refs_after, order, ahead, low) =
        create_timer_lem fuel (some 0) expire id s.timers enough small bounded fresh sorted in
      let s' : State = record s { timers = timers } in
      let new : Acl = record ap { expire = expire; timer = ref } in
      let (same, m) = entry-some id ap s v there in
      let (valid, timed) =
        write_entry-IsValid ap new s' (with_timers timers) refl refl (found timers same) in
      let u = write_entry new s' in
      let timed' : entry id u ≡ some new = subst (λ k. entry k u ≡ some new) same timed in
      let (t, end, still, gone, others, kept) = acl_timer_hook-Removes id new u valid timed' in
      (
        ref,
        u,
        t,
        record {
          run = rw (there, acl_add_timer, no_timer) (cong_arm run);
          valid = valid;
          timed = timed';
          unused = free;
          used = refs_after ref ∙ rw (==_refl ref) (omega (arith, free));
          end = end;
          still_valid = still;
          gone = gone;
          others = λ k n. others k n;
        },
      )
