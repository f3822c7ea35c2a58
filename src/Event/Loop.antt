-- ===== src/Event/Loop.antt =====
-- `hook_event` ends, and its answers fit the array.
use ithildin.Base.{
  ℕ, zero, suc, ◌+◌, ◌≤◌, ◌<◌, ◌≡◌, refl, sym, ap, ◌∙◌, ◌≢◌, ◌⊎◌, inl, inr, Bool, true, false, ◌||◌,
  Option, none, some, List, [], ◌∷◌, arith, ◌==◌, if◌then◌else◌, ==_refl, ==_ne, Bool-cases, length,
  All, length-append,
}
use ithildin.Event.{
  Hook, State, Answer, Request, serve_all, always_ok, cond_ok, never_ok, neutral, value,
}
use ithildin.Event.Call.{Progress, next_of, ahead, judge, receive, pop_once, call_hooks}
use ithildin.Event.Walk.{Apart, IsSound, weigh}
use ithildin.Event.Serve.{serve_all-Serves, pop_once-Serves}

pub List-cases : {A : Type 0} (xs : List A) → (xs ≡ []) ⊎ ((x : A) × (ys : List A) × (xs ≡ x ∷ ys))
List-cases [] = inl refl
List-cases (x ∷ xs) = inr (x, xs, refl)

All-next_of :
    (P : Hook → Type 0) (i : ℕ) (hooks : List Hook) → All P hooks → All P (next_of i hooks)
unfolding next_of
All-next_of P i [] h = tt
All-next_of P i (x ∷ hooks) h = elim (Bool-cases (x.at == i)) [
  | inl e ↦ rw e h.1
  | inr e ↦ rw e (All-next_of P i hooks h.1)
]

All-ahead :
    (P : Hook → Type 0) (prev : Option ℕ) (hooks : List Hook)
    → All P hooks
    → All P (ahead prev hooks)
All-ahead P none hooks h = h
All-ahead P (some i) hooks h = All-next_of P i hooks h

next_of_head : (hp : Hook) (hooks : List Hook) → next_of hp.at (hp ∷ hooks) ≡ hooks
unfolding next_of
next_of_head hp hooks = rw (==_refl hp.at)

-- Behind the hook that the loop has come to is the rest of what was ahead.
next_of-next_of :
    (i : ℕ) (hp : Hook) (hooks rest : List Hook)
    → Apart hooks
    → next_of i hooks ≡ hp ∷ rest
    → next_of hp.at hooks ≡ rest
unfolding next_of
next_of-next_of i hp [] rest h e = cc
next_of-next_of i hp (x ∷ hooks) rest h e = elim (Bool-cases (x.at == i)) [
  | inl same ↦
      let f : hooks ≡ hp ∷ rest = rw same at e in
      let g : All (λ y. y.at ≢ x.at) (hp ∷ rest) = rw f at h.0 in
      let q : x.at ≢ hp.at = λ z. g.0 (sym z) in rw (==_ne x.at hp.at q, f) (next_of_head hp rest)
  | inr other ↦
      let f : next_of i hooks ≡ hp ∷ rest = rw other at e in
      let g : All (λ y. y.at ≢ x.at) (hp ∷ rest) =
        rw f at (All-next_of (λ y. y.at ≢ x.at) i hooks h.0) in
      let q : x.at ≢ hp.at = λ z. g.0 (sym z) in
      rw (==_ne x.at hp.at q) (next_of-next_of i hp hooks rest h.1 f)
]

pub next_of-ahead :
    (prev : Option ℕ) (hp : Hook) (hooks rest : List Hook)
    → Apart hooks
    → ahead prev hooks ≡ hp ∷ rest
    → next_of hp.at hooks ≡ rest
next_of-ahead none hp hooks rest h e = rw e (next_of_head hp rest)
next_of-ahead (some i) hp hooks rest h e = next_of-next_of i hp hooks rest h e

length-receive :
    (conditional : Bool) (ret : Answer) (r : Progress)
    → length (receive conditional ret r).0.answers ≡ length r.answers + 1
unfolding receive judge
length-receive false ret r = length-append r.answers (ret ∷ [])
length-receive true always_ok r = length-append r.answers (always_ok ∷ [])
length-receive true cond_ok r = length-append r.answers (cond_ok ∷ [])
length-receive true never_ok r = length-append r.answers (never_ok ∷ [])
length-receive true neutral r = length-append r.answers (neutral ∷ [])
length-receive true (value v) r = length-append r.answers (value v ∷ [])

module _ (call : ℕ → State → Answer × List Request) where
  abbrev pub served : Hook → State → State
  served hp s = serve_all (call hp.function s).1 s

  abbrev pub received : Hook → State → Progress → Progress × Bool
  received hp s r = receive (served hp s).event.conditional (call hp.function s).0 r

  pub call_hooks_end :
      (fuel : ℕ) (prev : Option ℕ) (s : State) (r : Progress)
      → ahead prev s.event.hooks ≡ []
      → call_hooks call (suc fuel) prev s r ≡ some (s, r)
  unfolding call_hooks
  call_hooks_end fuel prev s r e = rw (call_hooks, e)

  -- The variables for the next round.
  abbrev pub once : Hook → State → Progress → Progress
  once hp s r =
      let r' = (received hp s r).0 in
      record r' { needclean = r'.needclean || (served hp s).event.hookonce }

  pub call_hooks_step :
      (fuel : ℕ) (prev : Option ℕ) (s : State) (r : Progress) (hp : Hook) (rest : List Hook)
      → ahead prev s.event.hooks ≡ hp ∷ rest
      → call_hooks call (suc fuel) prev s r ≡ (
          if hp.deferred || hp.new
          then call_hooks call fuel (some hp.at) s (record r { needclean = true })
          else if (received hp s r).1
          then some (served hp s, (received hp s r).0)
          else call_hooks call fuel (some hp.at) (pop_once hp.at (served hp s)) (once hp s r))
  unfolding call_hooks
  call_hooks_step fuel prev s r hp rest e = rw (call_hooks, e)

  -- How a run of the loop ends: the place of the walk weighed `n` for the hooks that were there.
  pub record Runs (n : ℕ) (s : State) (r : Progress) (t : State) (u : Progress) : Type 0 where
    pub sound : IsSound t
    pub calling : t.event.calling ≡ true
    pub room : s.maxhooks ≤ t.maxhooks
    pub answers : length u.answers ≤ length r.answers + n

  pub call_hooks-Runs :
      (k fuel : ℕ) (prev : Option ℕ) (s : State) (r : Progress)
      → ((f : ℕ) (s : State) → length (call f s).1 ≤ k)
      → IsSound s
      → s.event.calling ≡ true
      → weigh (k + 1) 1 (ahead prev s.event.hooks) < fuel
      → (t : State) × (u : Progress) × (call_hooks call fuel prev s r ≡ some (t, u))
        × Runs (weigh 1 0 (ahead prev s.event.hooks)) s r t u
  call_hooks-Runs k zero prev s r few v c h = absurd (omega arith)
  call_hooks-Runs k (suc fuel) prev s r few v c h = elim (List-cases (ahead prev s.event.hooks)) [
    | inl e ↦ (
      s,
      r,
      call_hooks_end fuel prev s r e,
      record { sound = v; calling = c; room = omega arith; answers = omega arith },
    )
    | inr (hp, rest, e) ↦
        let step = call_hooks_step fuel prev s r hp rest e in
        let behind : next_of hp.at s.event.hooks ≡ rest =
          next_of-ahead prev hp s.event.hooks rest v.apart e in
        let low : hp.at < s.fresh =
          (rw e at (All-ahead (λ h. h.at < s.fresh) prev s.event.hooks v.below)).0 in
        let here : weigh 1 0 (ahead prev s.event.hooks)
            ≡ (if hp.new then 0 else 1) + weigh 1 0 rest =
          ap (weigh 1 0) e in
        let after : weigh 1 0 (next_of hp.at s.event.hooks) ≡ weigh 1 0 rest =
          ap (weigh 1 0) behind in
        let after' : weigh (k + 1) 1 (next_of hp.at s.event.hooks) ≡ weigh (k + 1) 1 rest =
          ap (weigh (k + 1) 1) behind in
        let heavy : (if hp.new then 1 else k + 1) + weigh (k + 1) 1 rest < suc fuel = rw e at h in
        elim (Bool-cases (hp.deferred || hp.new)) [
          | inl skip ↦
              let (t, u, run, x) =
                call_hooks-Runs k fuel (some hp.at) s (record r { needclean = true }) few v c
                  (ground arith) in
              (
                t,
                u,
                step ∙ rw skip run,
                record {
                  sound = x.sound;
                  calling = x.calling;
                  room = x.room;
                  answers = omega (arith, x.answers);
                },
              )
          | inr go ↦
              let x = serve_all-Serves (call hp.function s).1 s v c in
              let old : hp.new ≡ false = ground arith in
              let more = length-receive (served hp s).event.conditional (call hp.function s).0 r in
              let one : weigh 1 0 (ahead prev s.event.hooks) ≡ 1 + weigh 1 0 rest =
                ground (arith, here, old) in
              let light : k + 1 + weigh (k + 1) 1 rest < suc fuel = ground (arith, heavy, old) in
              elim (Bool-cases (received hp s r).1) [
                | inl stop ↦ (
                  served hp s,
                  (received hp s r).0,
                  step ∙ rw (go, stop),
                  record {
                    sound = x.sound;
                    calling = x.calling;
                    room = x.room;
                    answers = omega (arith, more, one);
                  },
                )
                | inr on ↦
                    let y = pop_once-Serves hp.at (served hp s) x.sound x.calling in
                    let z1 = x.behind (k + 1) 1 hp.at low in
                    let z2 = y.behind (k + 1) 1 hp.at (omega (arith, x.fresh)) in
                    let (t, u, run, w) =
                      call_hooks-Runs k fuel (some hp.at) (pop_once hp.at (served hp s))
                        (once hp s r) few y.sound y.calling (omega (arith, few hp.function s)) in
                    (
                      t,
                      u,
                      step ∙ rw (go, on) run,
                      record {
                        sound = w.sound;
                        calling = w.calling;
                        room = omega (arith, x.room, y.room, w.room);
                        answers = omega (
                          arith,
                          more,
                          one,
                          w.answers,
                          x.behind 1 0 hp.at low,
                          y.behind 1 0 hp.at (omega (arith, x.fresh)),
                        );
                      },
                    )
              ]
        ]
  ]
