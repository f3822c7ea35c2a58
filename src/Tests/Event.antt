-- ===== src/Tests/Event.antt =====
-- source/event.c at events with up to two hooks.
use ithildin.Base.{
  ℕ, ◌≡◌, refl, inr, true, false, none, some, List, [], ◌∷◌, arith, ◌==◌, if◌then◌else◌, pos,
}
use ithildin.Event.{
  Hook, State, Answer, Outcome, Request, cond_ok, never_ok, neutral, value, add_after, remove,
  create_event, insert_after, insert_before, add_hook_after, add_hook_before, remove_hook,
}
use ithildin.Event.Call.{hook_event}
use ithildin.Event.Walk.{IsSound}
use ithildin.Event.Run.{Ends, hook_event-Ends}
use ithildin.Event.Quiet.{IsQuiet, quiet, Answers, hook_event-Answers}
use ithildin.Event.Change.{IsSettled, Adds, Removes, add_hook-Adds, remove_hook-Removes}
use ithildin.Event.Leftover.{lone, hook_event_leaves}

abbrev first_hook : Hook
first_hook = record { at = 1; function = 7; deferred = false; new = false }

abbrev second_hook : Hook
second_hook = record { at = 2; function = 8; deferred = false; new = false }

abbrev two_hooks : State
two_hooks = record {
  event = record (create_event false false false true) {
    numhooks = pos 2;
    hooks = first_hook ∷ second_hook ∷ [];
  };
  maxhooks = 16;
  fresh = 3;
}

two_hooks-IsSound : IsSound two_hooks
two_hooks-IsSound = record { below = omega arith; apart = omega arith }

two_hooks-IsSettled : IsSettled two_hooks
two_hooks-IsSettled = record {
  sound = two_hooks-IsSound;
  idle = refl;
  counted = refl;
  room = omega arith;
  clear = ((refl, refl), ((refl, refl), tt));
}

two_hooks-IsQuiet : IsQuiet two_hooks
two_hooks-IsQuiet = record {
  apart = omega arith;
  clear = ((refl, refl), ((refl, refl), tt));
  stay = refl;
  idle = refl;
}

-- Each function adds itself once more and goes.
abbrev restless : ℕ → State → Answer × List Request
restless f s = (cond_ok, add_after f none ∷ remove f ∷ [])

hook_event-Ends_example :
    (t : State) × (o : Outcome) × (answers : List Answer) × (hook_event restless 7 two_hooks
      ≡ some (t, o, answers))
    × Ends two_hooks t answers
hook_event-Ends_example =
    hook_event-Ends restless 2 7 two_hooks (λ f s. omega arith) two_hooks-IsSound (omega arith)

-- The first gives a value, the second denies for good.
abbrev deny_second : ℕ → Answer
deny_second f = if f == 8 then never_ok else value 5

hook_event-Answers_example :
    (t : State) × (o : Outcome) × (answers : List Answer) × (hook_event
        (quiet deny_second)
        3
        two_hooks
      ≡ some (t, o, answers))
    × Answers deny_second two_hooks t o answers
hook_event-Answers_example =
    hook_event-Answers deny_second 3 two_hooks two_hooks-IsQuiet (omega arith) (inr refl)

add_hook-Adds_example :
    (Adds two_hooks two_hooks-IsSettled
      (insert_after (some 7))
      9
      (add_hook_after (some 9) (some 7) two_hooks).0
      (add_hook_after (some 9) (some 7) two_hooks).1)
    × (Adds two_hooks two_hooks-IsSettled
        (insert_before (some 7))
        9
        (add_hook_before (some 9) (some 7) two_hooks).0
        (add_hook_before (some 9) (some 7) two_hooks).1)
add_hook-Adds_example = add_hook-Adds two_hooks two_hooks-IsSettled 9 (some 7)

remove_hook-Removes_example :
    Removes two_hooks two_hooks-IsSettled 8 (remove_hook 8 two_hooks).0 (remove_hook 8 two_hooks).1
remove_hook-Removes_example = remove_hook-Removes two_hooks two_hooks-IsSettled 8

hook_event_leaves_example :
    (t : State) × (o : Outcome) × (answers : List Answer) × (hook_event
        (λ f s. (neutral, remove f ∷ []))
        2
        (lone 1 7 false false 16 2)
      ≡ some (t, o, answers))
    × (t.event.hooks ≡ (record { at = 1; function = 7; deferred = true; new = false }) ∷ [])
    × (t.event.numhooks ≡ pos 0)
hook_event_leaves_example = hook_event_leaves neutral 0 1 7 16 2 false false
