-- ===== src/Event/Change.antt =====
-- Adding and removing hooks while the event is not being called.
use ithildin.Base.{
  ℕ, suc, ◌+◌, ◌<◌, ◌≡◌, refl, sym, ap, ◌∙◌, subst, ◌≢◌, ◌⊎◌, inl, inr, Bool, true, false, ◌&&◌,
  not, Option, none, some, List, [], ◌∷◌, arith, ◌==◌, if◌then◌else◌, Bool-cases, Option-cases,
  length, All, pos,
}
use ithildin.Event.{
  Hook, State, increment, decrement, grown, is_full, insert_after, insert_before, add_hook_really,
  add_hook_after, add_hook_before, find_hook, defer, unlink, remove_hook,
}
use ithildin.Event.Walk.{
  Apart, IsSound, All-insert_after, All-insert_before, All-weaken, Apart-insert_after,
  Apart-insert_before,
}

-- An event between two calls: the count is that of its hooks, and the array of answers holds one
-- for each of them and one more.
pub record IsSettled (s : State) : Type 0 where
  pub sound : IsSound s
  pub idle : s.event.calling ≡ false
  pub counted : s.event.numhooks ≡ pos (length s.event.hooks)
  pub room : length s.event.hooks < s.maxhooks
  pub clear : All (λ hp. (hp.deferred ≡ false) × (hp.new ≡ false)) s.event.hooks

length-insert_after :
    (f : Option ℕ) (hp : Hook) (hooks : List Hook)
    → length (insert_after f hp hooks) ≡ length hooks + 1
unfolding insert_after
length-insert_after f hp [] = omega arith
length-insert_after f hp (x ∷ hooks) = ground (arith, length-insert_after f hp hooks)

length-insert_before :
    (f : Option ℕ) (hp : Hook) (hooks : List Hook)
    → length (insert_before f hp hooks) ≡ length hooks + 1
unfolding insert_before
length-insert_before none hp hooks = omega arith
length-insert_before (some f) hp [] = omega arith
length-insert_before (some f) hp (x ∷ hooks) =
    ground (arith, length-insert_before (some f) hp hooks)

All-unlink : (P : Hook → Type 0) (i : ℕ) (hooks : List Hook) → All P hooks → All P (unlink i hooks)
unfolding unlink
All-unlink P i [] h = tt
All-unlink P i (x ∷ hooks) h = elim (Bool-cases (x.at == i)) [
  | inl e ↦ rw e h.1
  | inr e ↦ rw e (h.0, All-unlink P i hooks h.1)
]

Apart-unlink : (i : ℕ) (hooks : List Hook) → Apart hooks → Apart (unlink i hooks)
unfolding unlink
Apart-unlink i [] h = tt
Apart-unlink i (x ∷ hooks) h = elim (Bool-cases (x.at == i)) [
  | inl e ↦ rw e h.1
  | inr e ↦ rw e (All-unlink (λ y. y.at ≢ x.at) i hooks h.0, Apart-unlink i hooks h.1)
]

length-unlink :
    (f : ℕ) (hp : Hook) (hooks : List Hook)
    → find_hook f hooks ≡ some hp
    → length hooks ≡ suc (length (unlink hp.at hooks))
unfolding find_hook unlink
length-unlink f hp [] e = cc
length-unlink f hp (x ∷ hooks) e = ground (arith, length-unlink f hp hooks)

grown-lt : (m n : ℕ) → n < m → n + 1 < grown m (pos (suc n))
grown-lt m n h = ground arith

-- Whether an event has a place for another hook.
abbrev pub has_place : State → Bool
has_place s = not (s.event.onehook && not (length s.event.hooks == 0))

module _ (s : State) (v : IsSettled s) where
  full-has_place : is_full s.event ≡ not (has_place s)
  full-has_place = ground (arith, v.counted)

  abbrev fresh_hook : ℕ → Hook
  fresh_hook func = record { at = s.fresh; function = func; deferred = false; new = false }

  -- What a call that was asked to add a hook leaves: the hook where there is a place for it.
  pub record Adds (insert : Hook → List Hook → List Hook) (func : ℕ) (done : Bool) (t : State)
      : Type 0 where
    pub done_if : done ≡ has_place s
    pub settled : IsSettled t
    pub hooks :
        t.event.hooks
        ≡ (if has_place s then insert (fresh_hook func) s.event.hooks else s.event.hooks)

  refuse-Adds :
      (insert : Hook → List Hook → List Hook) (func : ℕ)
      → has_place s ≡ false
      → Adds insert func false s
  refuse-Adds insert func e = record { done_if = sym e; settled = v; hooks = rw e }

  add_hook_really-Adds :
      (func : ℕ) (insert : Hook → List Hook → List Hook)
      → ((P : Hook → Type 0) (hp : Hook)
          → P hp
          → All P s.event.hooks
          → All P (insert hp s.event.hooks))
      → ((hp : Hook)
          → All (λ h. h.at < hp.at) s.event.hooks
          → Apart s.event.hooks
          → Apart (insert hp s.event.hooks))
      → ((hp : Hook) → length (insert hp s.event.hooks) ≡ length s.event.hooks + 1)
      → has_place s ≡ true
      → Adds insert func true (add_hook_really func insert s)
  unfolding add_hook_really
  add_hook_really-Adds func insert all apart longer e =
      let hp = fresh_hook func in
      let n = longer hp in
      let same : (record hp { new = s.event.calling }) ≡ hp = rw v.idle in
      let list : insert (record hp { new = s.event.calling }) s.event.hooks
          ≡ insert hp s.event.hooks =
        ap (λ h. insert h s.event.hooks) same in
      let count : increment s.event.numhooks ≡ pos (suc (length s.event.hooks)) =
        ap increment v.counted in
      let m : length (insert (record hp { new = s.event.calling }) s.event.hooks)
          ≡ length s.event.hooks + 1 =
        ap length list ∙ n in
      record {
        done_if = sym e;
        settled = record {
          sound = record {
            below = rw list (
                all (λ h. h.at < suc s.fresh) hp (omega arith)
                  (All-weaken (λ h. h.at < s.fresh) _ s.event.hooks (λ h p. omega arith)
                    v.sound.below));
            apart = rw list (apart hp v.sound.below v.sound.apart);
          };
          idle = v.idle;
          counted = count ∙ ap pos (omega arith);
          room =
              subst
                (λ k.
                  length (insert (record hp { new = s.event.calling }) s.event.hooks)
                  < grown s.maxhooks k)
                (sym count) (omega (arith, m, grown-lt s.maxhooks (length s.event.hooks) v.room));
          clear = rw list (all _ hp (refl, refl) v.clear);
        };
        hooks = rw e list;
      }

  -- On a settled event `add_hook_after` and `add_hook_before` add the hook exactly if the event
  -- may have more than one or has none: the one behind the first hook with the function that was
  -- named, the other before it, and else at the end, or at the head where the other names none.
  -- The event stays settled.
  pub add_hook-Adds :
      (func : ℕ) (place : Option ℕ)
      → (let r = add_hook_after (some func) place s in Adds (insert_after place) func r.0 r.1)
        × (let r = add_hook_before (some func) place s in Adds (insert_before place) func r.0 r.1)
  unfolding add_hook_after add_hook_before
  add_hook-Adds func place = elim (Bool-cases (has_place s)) [
    | inl e ↦
        let f : is_full s.event ≡ false = full-has_place ∙ ap not e in
        (
          rw (add_hook_after, f)
              (add_hook_really-Adds func (insert_after place)
                (λ P hp. All-insert_after P place hp s.event.hooks)
                (λ hp. Apart-insert_after place hp s.event.hooks)
                (λ hp. length-insert_after place hp s.event.hooks) e),
          rw (add_hook_before, f)
              (add_hook_really-Adds func (insert_before place)
                (λ P hp. All-insert_before P place hp s.event.hooks)
                (λ hp. Apart-insert_before place hp s.event.hooks)
                (λ hp. length-insert_before place hp s.event.hooks) e),
        )
    | inr e ↦
        let f : is_full s.event ≡ true = full-has_place ∙ ap not e in
        (
          rw (add_hook_after, f) (refuse-Adds (insert_after place) func e),
          rw (add_hook_before, f) (refuse-Adds (insert_before place) func e),
        )
  ]

  -- What `remove_hook` leaves of a settled event.
  pub record Removes (func : ℕ) (done : Bool) (t : State) : Type 0 where
    pub settled : IsSettled t
    pub outcome :
        ((done ≡ false) × (find_hook func s.event.hooks ≡ none) × (t.event.hooks ≡ s.event.hooks))
        ⊎ ((done ≡ true)
            × ((hp : Hook) × (find_hook func s.event.hooks ≡ some hp)
                × (t.event.hooks ≡ unlink hp.at s.event.hooks)))

  -- On a settled event `remove_hook` takes out the first hook with the function, if there is one,
  -- and the event stays settled.
  pub remove_hook-Removes : (func : ℕ) → let r = remove_hook func s in Removes func r.0 r.1
  unfolding remove_hook
  remove_hook-Removes func = elim (Option-cases (find_hook func s.event.hooks)) [
    | inl e ↦ rw (remove_hook, e) (record { settled = v; outcome = inl (refl, e, refl) })
    | inr (hp, e) ↦
        let n = length-unlink func hp s.event.hooks e in
        let count : decrement s.event.numhooks ≡ pos (length (unlink hp.at s.event.hooks)) =
          ap decrement (v.counted ∙ ap pos n) in
        let list : (if s.event.calling
              then defer hp.at s.event.hooks
              else unlink hp.at s.event.hooks)
            ≡ unlink hp.at s.event.hooks =
          rw v.idle in
        rw (remove_hook, e)
          (record {
            settled = record {
              sound = record {
                below =
                    rw list (All-unlink (λ h. h.at < s.fresh) hp.at s.event.hooks v.sound.below);
                apart = rw list (Apart-unlink hp.at s.event.hooks v.sound.apart);
              };
              idle = v.idle;
              counted = count ∙ ap (λ l. pos (length l)) (sym list);
              room = omega (arith, ap length list, n, v.room);
              clear = rw list (All-unlink _ hp.at s.event.hooks v.clear);
            };
            outcome = inr (refl, (hp, e, list));
          })
  ]
