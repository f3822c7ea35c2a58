-- ===== src/Event/Quiet.antt =====
-- `hook_event` where the functions only answer.
use ithildin.Base.{
  ℕ, zero, suc, ◌<◌, ◌≡◌, refl, ap, ◌∙◌, ◌⊎◌, inl, inr, true, false, ◌||◌, Option, none, some, List,
  [], ◌∷◌, map, arith, if◌then◌else◌, Bool-cases, length, All,
}
use ithildin.Event.{Hook, State, Answer, Outcome, Request, null, hookreturns, serve_all}
use ithildin.Event.Call.{
  Progress, ahead, pop_once, returned_at_start, clean, outcome, closed, call_hooks, hook_event,
}
use ithildin.Event.Walk.{Apart}
use ithildin.Event.Serve.{marked, pop_once-eq}
use ithildin.Event.Loop.{next_of-ahead, received, once, call_hooks_end, call_hooks_step}
use ithildin.Event.Verdict.{heard, verdict, rounds, start, ending}

-- The event can be called: no hook is to go or was added meanwhile, and hooks stay.
pub record IsQuiet (s : State) : Type 0 where
  pub apart : Apart s.event.hooks
  pub clear : All (λ hp. (hp.deferred ≡ false) × (hp.new ≡ false)) s.event.hooks
  pub stay : s.event.hookonce ≡ false
  pub idle : s.event.calling ≡ false

module _ (answer : ℕ → Answer) where
  -- The functions with these answers.
  abbrev pub quiet : ℕ → State → Answer × List Request
  quiet f s = (answer f, [])

  abbrev pub answers_of : List Hook → List Answer
  answers_of hooks = map (λ hp. answer hp.function) hooks

  call_hooks-rounds :
      (fuel : ℕ) (prev : Option ℕ) (hooks : List Hook) (s : State) (r : Progress)
      → Apart s.event.hooks
      → s.event.hookonce ≡ false
      → All (λ hp. (hp.deferred ≡ false) × (hp.new ≡ false)) hooks
      → ahead prev s.event.hooks ≡ hooks
      → length hooks < fuel
      → call_hooks quiet fuel prev s r
        ≡ some (s, rounds s.event.conditional s.event.hookonce (answers_of hooks) r)
  unfolding rounds serve_all
  call_hooks-rounds zero prev hooks s r v o q e h = absurd (omega arith)
  call_hooks-rounds (suc fuel) prev [] s r v o q e h = call_hooks_end quiet fuel prev s r e
  call_hooks-rounds (suc fuel) prev (hp ∷ hooks) s r v o q e h =
      let step = call_hooks_step quiet fuel prev s r hp hooks e in
      let go : (hp.deferred || hp.new) ≡ false = ground (arith, q.0) in
      let p : pop_once hp.at s ≡ s = stays s o in
      elim (Bool-cases (received quiet hp s r).1) [
        | inl stop ↦ step ∙ rw (go, stop)
        | inr on ↦
            step
            ∙ rw (go, on, p)
                (call_hooks-rounds fuel (some hp.at) hooks s (once quiet hp s r) v o q.1
                  (next_of-ahead prev hp s.event.hooks hooks v e) (omega arith))
      ]
    where
      stays : (s : State) → s.event.hookonce ≡ false → pop_once hp.at s ≡ s
      stays s o = pop_once-eq hp.at s ∙ ap (λ b. if b then marked hp.at s else s) o

  -- How a call of the quiet event `s` ends.
  pub record Answers (s t : State) (o : Outcome) (answers : List Answer) : Type 0 where
    pub hooks : t.event.hooks ≡ s.event.hooks
    pub quiet_still : IsQuiet t
    pub heard_list : answers ≡ (
        if s.event.conditional then heard (answers_of s.event.hooks) else answers_of s.event.hooks)
    pub result : o ≡ (
        if s.event.conditional
        then verdict none (heard (answers_of s.event.hooks))
        else if s.event.noreturn
        then null
        else hookreturns)

  Answers-closed :
      (s : State) (u : Progress)
      → IsQuiet s
      → u.needclean ≡ false
      → u.answers ≡ (
          if s.event.conditional
          then heard (answers_of s.event.hooks)
          else answers_of s.event.hooks)
      → outcome s.event u ≡ (
          if s.event.conditional
          then verdict none (heard (answers_of s.event.hooks))
          else if s.event.noreturn
          then null
          else hookreturns)
      → let called = record s { event = record (s.event) { calling = true } } in
        Answers s (closed called u) (outcome s.event u) u.answers
  Answers-closed s u q n a o =
      let e : (if u.needclean then clean s.event.hooks else s.event.hooks) ≡ s.event.hooks = rw n in
      record {
        hooks = e;
        quiet_still = record {
          apart = rw e q.apart;
          clear = rw e q.clear;
          stay = q.stay;
          idle = refl;
        };
        heard_list = a;
        result = o;
      }

  -- Where the functions only answer, `hook_event` calls the hooks of an event that is quiet and
  -- not both conditional and without returns in their order and leaves them as they are. The
  -- answers of a plain event are those of all hooks; of a conditional one those up to the first
  -- that says always or never, and they decide what is returned.
  pub hook_event-Answers :
      (fuel : ℕ) (s : State)
      → IsQuiet s
      → length s.event.hooks < fuel
      → (s.event.conditional ≡ false) ⊎ (s.event.noreturn ≡ false)
      → (t : State) × (o : Outcome) × (answers : List Answer) × (hook_event quiet fuel s
          ≡ some (t, o, answers))
        × Answers s t o answers
  unfolding hook_event returned_at_start
  hook_event-Answers fuel s q h mode =
      let called = record s { event = record (s.event) { calling = true } } in
      let list = answers_of s.event.hooks in
      let r = start s.event.conditional s.event.noreturn in
      let u = rounds s.event.conditional s.event.hookonce list r in
      let run = call_hooks-rounds fuel none s.event.hooks called r q.apart q.stay q.clear refl h in
      let (n, a, o) = ending s.event.conditional s.event.noreturn list mode in
      let e : u ≡ rounds s.event.conditional false list r =
        ap (λ b. rounds s.event.conditional b list r) q.stay in
      (
        closed called u,
        outcome s.event u,
        u.answers,
        rw (hook_event, run),
        Answers-closed s u q (ap (λ u. u.needclean) e ∙ n) (ap (λ u. u.answers) e ∙ a)
            (ap (outcome s.event) e ∙ o),
      )
