-- ===== src/Event.antt =====
-- source/event.c: events and the hooks that they call. The address of a hook is a number, of
-- which `fresh` is the next that malloc gives; a hook function is a number too. The call of a
-- function answers, and may ask for hooks to be added or removed on the event that is being
-- called; it does not call this event again.
pub mod Walk
pub mod Serve
pub mod Loop
pub mod Run
pub mod Verdict
pub mod Quiet
pub mod Call
pub mod Change
pub mod Leftover
use ithildin.Base.{
  ℕ, zero, suc, ◌*◌, Bool, true, false, ◌&&◌, not, Option, none, some, List, [], ◌∷◌, leb, ◌==◌,
  if◌then◌else◌, ℤ, pos, negsuc, is_zero,
}

-- `struct hook`
pub record Hook : Type 0 where
  pub at : ℕ
  pub function : ℕ
  pub deferred : Bool
  pub new : Bool

-- `struct event`, its flags one by one.
pub record Event : Type 0 where
  pub numhooks : ℤ
  pub onehook : Bool
  pub noreturn : Bool
  pub hookonce : Bool
  pub conditional : Bool
  pub calling : Bool
  pub hooks : List Hook

-- The event, and the two globals of the module.
pub record State : Type 0 where
  pub event : Event
  pub maxhooks : ℕ
  pub fresh : ℕ

-- The values of HOOK_COND_ALWAYSOK, HOOK_COND_OK, HOOK_COND_NEVEROK, which is also that of
-- HOOK_COND_NOTOK, and HOOK_COND_NEUTRAL, and any other.
pub data Answer : Type 0 where
  always_ok cond_ok never_ok neutral : Answer
  value : ℕ → Answer

-- What `hook_event` returns: NULL, HOOK_COND_PASS, HOOK_COND_SPASS, HOOK_COND_FAIL, a value that a
-- hook gave, or the array `hookreturns`.
pub data Outcome : Type 0 where
  null pass spass fail hookreturns : Outcome
  given : ℕ → Outcome

pub data Request : Type 0 where
  add_after add_before : ℕ → Option ℕ → Request
  remove : ℕ → Request

abbrev pub create_event : Bool → Bool → Bool → Bool → Event
create_event onehook noreturn hookonce conditional = record {
  numhooks = pos 0;
  onehook = onehook;
  noreturn = noreturn;
  hookonce = hookonce;
  conditional = conditional;
  calling = false;
  hooks = [];
}

abbrev pub increment : ℤ → ℤ
increment (pos n) = pos (suc n)
increment (negsuc zero) = pos 0
increment (negsuc (suc n)) = negsuc n

abbrev pub decrement : ℤ → ℤ
decrement (pos zero) = negsuc 0
decrement (pos (suc n)) = pos n
decrement (negsuc n) = negsuc (suc n)

abbrev pub is : Option ℕ → ℕ → Bool
is none f = false
is (some g) f = f == g

-- Behind the first hook with the function, or at the end.
unfoldable pub insert_after : Option ℕ → Hook → List Hook → List Hook
insert_after after hp [] = hp ∷ []
insert_after after hp (hp2 ∷ hooks) =
    if is after hp2.function then hp2 ∷ hp ∷ hooks else hp2 ∷ insert_after after hp hooks

-- Before the first hook with the function, or at the end; at the head for a null pointer.
unfoldable pub insert_before : Option ℕ → Hook → List Hook → List Hook
insert_before none hp hooks = hp ∷ hooks
insert_before (some before) hp [] = hp ∷ []
insert_before (some before) hp (hp2 ∷ hooks) =
    if hp2.function == before then hp ∷ hp2 ∷ hooks else hp2 ∷ insert_before (some before) hp hooks

-- if (maxhooks <= numhooks) maxhooks *= 2;
abbrev pub grown : ℕ → ℤ → ℕ
grown maxhooks (pos n) = if leb maxhooks n then maxhooks * 2 else maxhooks
grown maxhooks (negsuc n) = maxhooks

unfoldable pub add_hook_really : ℕ → (Hook → List Hook → List Hook) → State → State
add_hook_really func insert s =
    let ep = s.event in
    let hp : Hook = record { at = s.fresh; function = func; deferred = false; new = ep.calling } in
    let numhooks = increment ep.numhooks in
    record {
      event = record ep { numhooks = numhooks; hooks = insert hp ep.hooks };
      maxhooks = grown s.maxhooks numhooks;
      fresh = suc s.fresh;
    }

-- ep->numhooks && ep->flags & EVENT_FL_ONEHOOK
abbrev pub is_full : Event → Bool
is_full ep = ep.onehook && not (is_zero ep.numhooks)

-- The function is none where it is a null pointer.
unfoldable pub add_hook_after : Option ℕ → Option ℕ → State → Bool × State
unfolding add_hook_really insert_after
add_hook_after none after s = (false, s)
add_hook_after (some func) after s =
    if is_full s.event then (false, s) else (true, add_hook_really func (insert_after after) s)

unfoldable pub add_hook_before : Option ℕ → Option ℕ → State → Bool × State
unfolding add_hook_really insert_before
add_hook_before none before s = (false, s)
add_hook_before (some func) before s =
    if is_full s.event then (false, s) else (true, add_hook_really func (insert_before before) s)

unfoldable pub find_hook : ℕ → List Hook → Option Hook
find_hook func [] = none
find_hook func (hp ∷ hooks) = if hp.function == func then some hp else find_hook func hooks

-- hp->flags |= HOOK_FL_DEFERRED, and SLIST_REMOVE, of the hook at an address.
unfoldable pub defer : ℕ → List Hook → List Hook
defer at [] = []
defer at (hp ∷ hooks) =
    if hp.at == at then (record hp { deferred = true }) ∷ hooks else hp ∷ defer at hooks

unfoldable pub unlink : ℕ → List Hook → List Hook
unlink at [] = []
unlink at (hp ∷ hooks) = if hp.at == at then hooks else hp ∷ unlink at hooks

unfoldable pub remove_hook : ℕ → State → Bool × State
unfolding find_hook defer unlink
remove_hook func s = elim (find_hook func s.event.hooks) [
  | none ↦ (false, s)
  | some hp ↦
      let ep = s.event in
      (
        true,
        record s {
          event = record ep {
            numhooks = decrement ep.numhooks;
            hooks = if ep.calling then defer hp.at ep.hooks else unlink hp.at ep.hooks;
          };
        },
      )
]

unfoldable pub serve : Request → State → State
unfolding add_hook_after add_hook_before remove_hook
serve (add_after func after) s = (add_hook_after (some func) after s).1
serve (add_before func before) s = (add_hook_before (some func) before s).1
serve (remove func) s = (remove_hook func s).1

unfoldable pub serve_all : List Request → State → State
unfolding serve
serve_all [] s = s
serve_all (q ∷ qs) s = serve_all qs (serve q s)
