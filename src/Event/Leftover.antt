-- ===== src/Event/Leftover.antt =====
-- A hook that removes itself while it is called.
use ithildin.Base.{
  ℕ, suc, ◌≡◌, refl, Bool, true, false, none, some, List, [], ◌∷◌, arith, ==_refl, pos,
}
use ithildin.Event.{Hook, State, Answer, Outcome, remove}
use ithildin.Event.Call.{Progress, returned_at_start, closed, outcome, call_hooks, hook_event}

-- A plain event with one hook, between two calls.
abbrev pub lone : ℕ → ℕ → Bool → Bool → ℕ → ℕ → State
lone at function onehook noreturn maxhooks fresh = record {
  event = record {
    numhooks = pos 1;
    onehook = onehook;
    noreturn = noreturn;
    hookonce = false;
    conditional = false;
    calling = false;
    hooks = (record { at = at; function = function; deferred = false; new = false }) ∷ [];
  };
  maxhooks = maxhooks;
  fresh = fresh;
}

-- Where the function of the only hook of a plain event asks for its own removal, the hook is
-- still in the list after the call, marked as one that is to go, while the event counts no hook.
pub hook_event_leaves :
    (ret : Answer) (fuel at function maxhooks fresh : ℕ) (onehook noreturn : Bool)
    → (t : State) × (o : Outcome) × (answers : List Answer) × (hook_event
          (λ f s. (ret, remove f ∷ []))
          (suc (suc fuel))
          (lone at function onehook noreturn maxhooks fresh)
        ≡ some (t, o, answers))
      × (t.event.hooks
          ≡ (record { at = at; function = function; deferred = true; new = false }) ∷ [])
      × (t.event.numhooks ≡ pos 0)
unfolding hook_event call_hooks
hook_event_leaves ret fuel at function maxhooks fresh onehook noreturn =
    let r : Progress = record {
      answers = ret ∷ [];
      returned = returned_at_start (lone at function onehook noreturn maxhooks fresh).event;
      econd = none;
      needclean = false;
    } in
    let left : Hook = record { at = at; function = function; deferred = true; new = false } in
    let after = record (lone at function onehook noreturn maxhooks fresh) {
      event = record ((lone at function onehook noreturn maxhooks fresh).event) {
        numhooks = pos 0;
        calling = true;
        hooks = left ∷ [];
      };
    } in
    (
      closed after r,
      outcome after.event r,
      r.answers,
      ground (arith, ==_refl at, ==_refl function),
      refl,
      refl,
    )
