-- ===== src/Event/Serve.antt =====
-- What the requests of a hook do to a list that is being walked.
use ithildin.Base.{
  ℕ, suc, ◌+◌, ◌*◌, ◌≤◌, ◌<◌, ◌≡◌, refl, sym, subst, ◌≢◌, inl, inr, Bool, true, false, Option, some,
  List, [], ◌∷◌, arith, if◌then◌else◌, Bool-cases, Option-cases, length, All, ℤ, pos, negsuc,
}
use native.Mathlib.Nat.{suc-mul}
use ithildin.Event.{
  Hook, State, Request, add_after, add_before, remove, increment, grown, insert_after,
  insert_before, add_hook_really, add_hook_after, add_hook_before, find_hook, defer, remove_hook,
  serve, serve_all, is_full,
}
use ithildin.Event.Call.{next_of, pop_once}
use ithildin.Event.Walk.{
  Apart, IsSound, weigh, weigh-next_of-insert_after, weigh-next_of-insert_before,
  weigh-next_of-defer, All-insert_after, All-insert_before, All-defer, All-weaken,
  Apart-insert_after, Apart-insert_before, Apart-defer,
}

-- What `n` requests on an event that is being called leave of it: the hooks behind any one weigh
-- as before but for `n` new ones, and the array of answers has not become smaller.
pub record Serves (n : ℕ) (s t : State) : Type 0 where
  pub sound : IsSound t
  pub calling : t.event.calling ≡ true
  pub fresh : s.fresh ≤ t.fresh
  pub room : s.maxhooks ≤ t.maxhooks
  pub behind :
      (a b i : ℕ)
      → i < s.fresh
      → weigh a b (next_of i t.event.hooks) ≤ weigh a b (next_of i s.event.hooks) + n * b

Serves-refl : (n : ℕ) (s : State) → IsSound s → s.event.calling ≡ true → Serves n s s
Serves-refl n s v c = record {
  sound = v;
  calling = c;
  fresh = omega arith;
  room = omega arith;
  behind = λ a b i l. omega arith;
}

Serves-trans : (n : ℕ) (s t u : State) → Serves 1 s t → Serves n t u → Serves (suc n) s u
Serves-trans n s t u x y = record {
  sound = y.sound;
  calling = y.calling;
  fresh = omega (arith, x.fresh, y.fresh);
  room = omega (arith, x.room, y.room);
  behind = λ a b i l.
      omega (arith, x.behind a b i l, y.behind a b i (omega (arith, x.fresh)), suc-mul n b);
}

grown-le : (m : ℕ) (n : ℤ) → m ≤ grown m n
grown-le m (pos n) = ground arith
grown-le m (negsuc n) = omega arith

module _ (s : State) (v : IsSound s) (c : s.event.calling ≡ true) where
  add_hook_really-Serves :
      (func : ℕ) (insert : Hook → List Hook → List Hook)
      → ((P : Hook → Type 0) (hp : Hook)
          → P hp
          → All P s.event.hooks
          → All P (insert hp s.event.hooks))
      → ((hp : Hook)
          → All (λ h. h.at < hp.at) s.event.hooks
          → Apart s.event.hooks
          → Apart (insert hp s.event.hooks))
      → ((a b i : ℕ) (hp : Hook)
          → hp.new ≡ true
          → hp.at ≢ i
          → weigh a b (next_of i (insert hp s.event.hooks))
            ≤ weigh a b (next_of i s.event.hooks) + b)
      → Serves 1 s (add_hook_really func insert s)
  unfolding add_hook_really
  add_hook_really-Serves func insert all apart weighs =
      let hp : Hook = record {
        at = s.fresh;
        function = func;
        deferred = false;
        new = s.event.calling;
      } in
      record {
        sound = record {
          below =
              all (λ h. h.at < suc s.fresh) hp (omega arith)
                (All-weaken (λ h. h.at < s.fresh) _ s.event.hooks (λ h p. omega arith) v.below);
          apart = apart hp v.below v.apart;
        };
        calling = c;
        fresh = omega arith;
        room = grown-le s.maxhooks (increment s.event.numhooks);
        behind = λ a b i l. omega (arith, weighs a b i hp c (omega arith));
      }

  remove_hook-Serves : (func : ℕ) → Serves 1 s (remove_hook func s).1
  unfolding remove_hook
  remove_hook-Serves func = elim (Option-cases (find_hook func s.event.hooks)) [
    | inl e ↦ rw (remove_hook, e) (Serves-refl 1 s v c)
    | inr (hp, e) ↦
        rw (remove_hook, e, c)
          (record {
            sound = record {
              below = All-defer (λ n. n < s.fresh) hp.at s.event.hooks v.below;
              apart = Apart-defer hp.at s.event.hooks v.apart;
            };
            calling = refl;
            fresh = omega arith;
            room = omega arith;
            behind = λ a b i l. omega (arith, weigh-next_of-defer a b i hp.at s.event.hooks);
          })
  ]

  add_hook_after-Serves :
      (func : ℕ) (after : Option ℕ) → Serves 1 s (add_hook_after (some func) after s).1
  unfolding add_hook_after
  add_hook_after-Serves func after = elim (Bool-cases (is_full s.event)) [
    | inl e ↦ rw (add_hook_after, e) (Serves-refl 1 s v c)
    | inr e ↦
        rw (add_hook_after, e)
          (add_hook_really-Serves func (insert_after after)
            (λ P hp. All-insert_after P after hp s.event.hooks)
            (λ hp. Apart-insert_after after hp s.event.hooks)
            (λ a b i hp. weigh-next_of-insert_after a b i after hp s.event.hooks))
  ]

  add_hook_before-Serves :
      (func : ℕ) (before : Option ℕ) → Serves 1 s (add_hook_before (some func) before s).1
  unfolding add_hook_before
  add_hook_before-Serves func before = elim (Bool-cases (is_full s.event)) [
    | inl e ↦ rw (add_hook_before, e) (Serves-refl 1 s v c)
    | inr e ↦
        rw (add_hook_before, e)
          (add_hook_really-Serves func (insert_before before)
            (λ P hp. All-insert_before P before hp s.event.hooks)
            (λ hp. Apart-insert_before before hp s.event.hooks)
            (λ a b i hp. weigh-next_of-insert_before a b i before hp s.event.hooks))
  ]

  serve-Serves : (q : Request) → Serves 1 s (serve q s)
  unfolding serve
  serve-Serves (add_after func after) = add_hook_after-Serves func after
  serve-Serves (add_before func before) = add_hook_before-Serves func before
  serve-Serves (remove func) = remove_hook-Serves func

pub serve_all-Serves :
    (qs : List Request) (s : State)
    → IsSound s
    → s.event.calling ≡ true
    → Serves (length qs) s (serve_all qs s)
unfolding serve_all
serve_all-Serves [] s v c = Serves-refl 0 s v c
serve_all-Serves (q ∷ qs) s v c =
    let x = serve-Serves s v c q in
    Serves-trans (length qs) s (serve q s) (serve_all qs (serve q s)) x
      (serve_all-Serves qs (serve q s) x.sound x.calling)

-- The state with the mark of a hook that is called once.
abbrev pub marked : ℕ → State → State
marked at s = record s { event = record (s.event) { hooks = defer at s.event.hooks } }

pub pop_once-eq :
    (at : ℕ) (s : State) → pop_once at s ≡ (if s.event.hookonce then marked at s else s)
unfolding pop_once
pop_once-eq at s = refl

-- It changes no weight.
pub pop_once-Serves :
    (at : ℕ) (s : State) → IsSound s → s.event.calling ≡ true → Serves 0 s (pop_once at s)
pop_once-Serves at s v c = subst (Serves 0 s) (sym (pop_once-eq at s)) (either (s.event.hookonce))
  where
    either : (b : Bool) → Serves 0 s (if b then marked at s else s)
    either false = Serves-refl 0 s v c
    either true = record {
      sound = record {
        below = All-defer (λ n. n < s.fresh) at s.event.hooks v.below;
        apart = Apart-defer at s.event.hooks v.apart;
      };
      calling = c;
      fresh = omega arith;
      room = omega arith;
      behind = λ a b i l. omega (arith, weigh-next_of-defer a b i at s.event.hooks);
    }
