-- ===== src/Event/Run.antt =====
-- A whole run of `hook_event`.
use ithildin.Base.{
  ℕ, ◌+◌, ◌*◌, ◌≤◌, ◌<◌, ◌≡◌, refl, ◌≢◌, inl, inr, Bool, true, false, none, some, List, [], ◌∷◌,
  arith, if◌then◌else◌, Bool-cases, length, All,
}
use native.Mathlib.Nat.{suc-mul}
use ithildin.Event.{Hook, State, Answer, Outcome, Request}
use ithildin.Event.Call.{Progress, clean, returned_at_start, outcome, hook_event, closed}
use ithildin.Event.Walk.{Apart, IsSound, weigh}
use ithildin.Event.Loop.{call_hooks-Runs}

weigh-le : (k : ℕ) (hooks : List Hook) → weigh (k + 1) 1 hooks ≤ length hooks * (k + 1)
weigh-le k [] = omega arith
weigh-le k (hp ∷ hooks) = ground (arith, weigh-le k hooks, suc-mul (length hooks) (k + 1))

weigh_old-le : (hooks : List Hook) → weigh 1 0 hooks ≤ length hooks
weigh_old-le [] = omega arith
weigh_old-le (hp ∷ hooks) = ground (arith, weigh_old-le hooks)

All-clean :
    (P : ℕ → Type 0) (hooks : List Hook) → All (λ h. P h.at) hooks → All (λ h. P h.at) (clean hooks)
unfolding clean
All-clean P [] h = tt
All-clean P (x ∷ hooks) h = elim (Bool-cases (x.deferred)) [
  | inl e ↦ rw e (All-clean P hooks h.1)
  | inr e ↦ rw e (h.0, All-clean P hooks h.1)
]

Apart-clean : (hooks : List Hook) → Apart hooks → Apart (clean hooks)
unfolding clean
Apart-clean [] h = tt
Apart-clean (x ∷ hooks) h = elim (Bool-cases (x.deferred)) [
  | inl e ↦ rw e (Apart-clean hooks h.1)
  | inr e ↦ rw e (All-clean (λ n. n ≢ x.at) hooks h.0, Apart-clean hooks h.1)
]

-- What stands in a list after the walk at the end.
pub record Ends (s t : State) (answers : List Answer) : Type 0 where
  pub sound : IsSound t
  pub over : t.event.calling ≡ false
  pub within : length answers ≤ length s.event.hooks
  pub room : s.maxhooks ≤ t.maxhooks

module _ (call : ℕ → State → Answer × List Request) where
  IsSound-clean :
      (t : State) (b : Bool)
      → IsSound t
      → IsSound (record t {
        event = record (t.event) {
          calling = false;
          hooks = if b then clean t.event.hooks else t.event.hooks;
        };
      })
  IsSound-clean t true v = record {
    below = All-clean (λ n. n < t.fresh) t.event.hooks v.below;
    apart = Apart-clean t.event.hooks v.apart;
  }
  IsSound-clean t false v = record { below = v.below; apart = v.apart }

  -- Where the function of a hook makes at most `k` requests, `hook_event` on `n` hooks ends
  -- within n * (k + 1) + 1 rounds, whatever the requests are. It has written at most `n` answers,
  -- the array of them has not become smaller, and the event is not being called any more.
  pub hook_event-Ends :
      (k fuel : ℕ) (s : State)
      → ((f : ℕ) (s : State) → length (call f s).1 ≤ k)
      → IsSound s
      → length s.event.hooks * (k + 1) < fuel
      → (t : State) × (o : Outcome) × (answers : List Answer) × (hook_event call fuel s
          ≡ some (t, o, answers))
        × Ends s t answers
  unfolding hook_event
  hook_event-Ends k fuel s few v h =
      let called = record s { event = record (s.event) { calling = true } } in
      let r : Progress = record {
        answers = [];
        returned = returned_at_start s.event;
        econd = none;
        needclean = false;
      } in
      let (t, u, run, x) =
        call_hooks-Runs call k fuel none called r few (record { below = v.below; apart = v.apart })
          refl (omega (arith, weigh-le k s.event.hooks)) in
      (
        closed t u,
        outcome t.event u,
        u.answers,
        rw (hook_event, run),
        record {
          sound = IsSound-clean t u.needclean x.sound;
          over = refl;
          within = omega (arith, x.answers, weigh_old-le s.event.hooks);
          room = x.room;
        },
      )
