-- ===== src/Event/Call.antt =====
-- source/event.c: `hook_event`. The functions of the hooks are a parameter: what one answers, and
-- what it asks of the event while it is called.
use ithildin.Base.{
  ℕ, zero, suc, Bool, true, false, ◌||◌, Option, none, some, List, [], ◌∷◌, ◌++◌, ◌==◌,
  if◌then◌else◌,
}
use ithildin.Event.{
  Hook, Event, State, Answer, always_ok, cond_ok, never_ok, neutral, value, Outcome, null, pass,
  spass, fail, hookreturns, given, Request, defer, serve_all,
}

-- The hooks behind the one at an address, which the loop reads by SLIST_NEXT; all of them before it
-- has come to one.
unfoldable pub next_of : ℕ → List Hook → List Hook
next_of at [] = []
next_of at (hp ∷ hooks) = if hp.at == at then hooks else next_of at hooks

abbrev pub ahead : Option ℕ → List Hook → List Hook
ahead none hooks = hooks
ahead (some at) hooks = next_of at hooks

-- The variables of `hook_event`, with what it has written to `hookreturns`.
pub record Progress : Type 0 where
  pub answers : List Answer
  pub returned : Outcome
  pub econd : Option ℕ
  pub needclean : Bool

-- An answer to a conditional event, and whether the loop stops there.
unfoldable pub judge : Answer → Progress → Progress × Bool
judge always_ok r = (record r { returned = spass }, true)
judge never_ok r = (record r { returned = fail }, true)
judge cond_ok r = (r, false)
judge neutral r = (r, false)
judge (value v) r = (record r { returned = fail; econd = some v }, false)

-- What the loop does with an answer.
unfoldable pub receive : Bool → Answer → Progress → Progress × Bool
unfolding judge
receive conditional ret r =
    let r' : Progress = record r { answers = r.answers ++ (ret ∷ []) } in
    if conditional then judge ret r' else (r', false)

-- The mark of a hook that is called once.
unfoldable pub pop_once : ℕ → State → State
unfolding defer
pop_once at s =
    if s.event.hookonce
    then record s { event = record (s.event) { hooks = defer at s.event.hooks } }
    else s

unfoldable pub returned_at_start : Event → Outcome
returned_at_start ep = if ep.noreturn then null else if ep.conditional then pass else hookreturns

-- if (returned == HOOK_COND_FAIL && econd != NULL)
abbrev pub with_econd : Outcome → Option ℕ → Outcome
with_econd fail (some v) = given v
with_econd fail none = fail
with_econd null e = null
with_econd pass e = pass
with_econd spass e = spass
with_econd hookreturns e = hookreturns
with_econd (given v) e = given v

abbrev pub outcome : Event → Progress → Outcome
outcome ep r = if ep.conditional then with_econd r.returned r.econd else r.returned

-- The walk over the list at the end.
unfoldable pub clean : List Hook → List Hook
clean [] = []
clean (hp ∷ hooks) = if hp.deferred then clean hooks else (record hp { new = false }) ∷ clean hooks

-- The statements behind the loop: the state after, what is returned, and what `hookreturns` holds.
abbrev pub closed : State → Progress → State
closed s r =
    let ep = s.event in
    record s {
      event = record ep {
        calling = false;
        hooks = if r.needclean then clean ep.hooks else ep.hooks;
      };
    }

module _ (call : ℕ → State → Answer × List Request) where
  -- The loop over the hooks, from behind `prev`; none is fuel run out.
  unfoldable pub call_hooks : ℕ → Option ℕ → State → Progress → Option (State × Progress)
  unfolding next_of receive pop_once serve_all
  call_hooks zero prev s r = none
  call_hooks (suc fuel) prev s r = elim (ahead prev s.event.hooks) [
    | [] ↦ some (s, r)
    | hp ∷ hooks ↦
        let skip = call_hooks fuel (some hp.at) s (record r { needclean = true }) in
        let (ret, requests) = call hp.function s in
        let s' = serve_all requests s in
        let (r', stop) = receive s'.event.conditional ret r in
        let once : Progress = record r' { needclean = r'.needclean || s'.event.hookonce } in
        let next = call_hooks fuel (some hp.at) (pop_once hp.at s') once in
        if hp.deferred || hp.new then skip else if stop then some (s', r') else next
  ]

  -- The state after, what is returned, and what `hookreturns` holds.
  unfoldable pub hook_event : ℕ → State → Option (State × Outcome × List Answer)
  unfolding call_hooks returned_at_start clean
  hook_event fuel s =
      let called = record s { event = record (s.event) { calling = true } } in
      let r : Progress = record {
        answers = [];
        returned = returned_at_start s.event;
        econd = none;
        needclean = false;
      } in
      elim (call_hooks fuel none called r) [
        | none ↦ none
        | some (s', r') ↦ some (closed s' r', outcome s'.event r', r'.answers)
      ]
