-- ===== src/Class/Invariant.antt =====
-- No connection points to a class that is gone, and the clients of a class are counted right.
use ithildin.Base.{
  ℕ, ◌≤◌, ◌<◌, ◌≡◌, sym, ap, ◌∙◌, ◌≢◌, ◌⊎◌, inl, inr, true, false, none, some, List, arith, ◌==◌,
  ==_iff, ==_refl, Bool-cases,
}
use ithildin.Class.{Class, Connection, State, find, remove, is_default}
use ithildin.Class.Counts.{
  members, copies, find_absent, copies-remove, find-remove_ne, is_default-remove,
}

pub record IsValid (s : State) : Type 0 where
  pub single : (k : ℕ) → copies k s.classes ≤ 1
  pub counted : (k : ℕ) (c : Class) → find k s.classes ≡ some c → c.clients ≡ members k s.conns
  pub pointing : (k : ℕ) → 0 < members k s.conns → find k s.classes ≢ none
  -- a dead class is there only while it has clients, but for the default one
  pub alive :
      (k : ℕ) (c : Class)
      → find k s.classes ≡ some c
      → c.dead ≡ true
      → (is_default k s.classes ≡ true) ⊎ (0 < c.clients)

-- The step from `s` to other connections `xs` and classes `ds`, in which only the class `k`
-- changes.
module _ (s : State) (v : IsValid s) (k : ℕ) (xs : List Connection)
    (others : (j : ℕ) → k ≢ j → members j xs ≡ members j s.conns) (ds : List Class)
    (same_copies : (j : ℕ) → copies j ds ≡ copies j s.classes)
    (elsewhere : (j : ℕ) → k ≢ j → find j ds ≡ find j s.classes)
    (same_default : (j : ℕ) → is_default j ds ≡ is_default j s.classes) where
  -- The class is still there, with the right count.
  pub keep-IsValid :
      (d : Class)
      → find k ds ≡ some d
      → d.clients ≡ members k xs
      → (is_default k s.classes ≡ true) ⊎ (d.dead ≡ false) ⊎ (0 < d.clients)
      → IsValid (record { classes = ds; conns = xs })
  keep-IsValid d there count live = record {
    single = λ j. rw (same_copies j) (v.single j);
    counted = λ j e h. elim (Bool-cases (k == j)) [
      | inl here ↦
          let q : k ≡ j = (==_iff k j).0 here in
          let f = rw q at there in let n = rw q at count in cc
      | inr away ↦
          let q : k ≢ j = ground arith in v.counted j e (sym (elsewhere j q) ∙ h) ∙ sym (others j q)
    ];
    pointing = λ j m. elim (Bool-cases (k == j)) [
      | inl here ↦ λ e. let q : k ≡ j = (==_iff k j).0 here in let f = rw q at there in cc
      | inr away ↦
          let q : k ≢ j = ground arith in
          λ e. v.pointing j (rw (← others j q) m) (sym (elsewhere j q) ∙ e)
    ];
    alive = λ j e h dead. elim (Bool-cases (k == j)) [
      | inl here ↦
          let q : k ≡ j = (==_iff k j).0 here in
          let f : find j ds ≡ some d = rw q at there in
          let de : e ≡ d = cc in
          elim live [
            | inl default ↦ inl (same_default j ∙ (rw q at default))
            | inr (inl l) ↦ absurd (let m : d.dead ≡ true = sym (ap (λ c. c.dead) de) ∙ dead in cc)
            | inr (inr l) ↦ inr (rw de l)
          ]
      | inr away ↦
          let q : k ≢ j = ground arith in
          rw (same_default j) (v.alive j e (sym (elsewhere j q) ∙ h) dead)
    ];
  }

  -- The class, to which no connection points, is taken out.
  pub drop-IsValid :
      is_default k s.classes ≡ false
      → members k xs ≡ 0
      → IsValid (record { classes = remove k ds; conns = xs })
  drop-IsValid other empty = record {
    single = λ j. omega (arith, copies-remove j k ds, same_copies j, v.single j);
    counted = λ j e h. elim (Bool-cases (k == j)) [
      | inl here ↦
          absurd
            (let q : k ≡ j = (==_iff k j).0 here in let g = rw (← q) at h in let f = gone in cc)
      | inr away ↦
          let q : k ≢ j = ground arith in v.counted j e (sym (look j q) ∙ h) ∙ sym (others j q)
    ];
    pointing = λ j m. elim (Bool-cases (k == j)) [
      | inl here ↦
          absurd (
            let q : k ≡ j = (==_iff k j).0 here in let g = rw (← q) at m in omega (arith, g, empty))
      | inr away ↦
          let q : k ≢ j = ground arith in
          λ e. v.pointing j (rw (← others j q) m) (sym (look j q) ∙ e)
    ];
    alive = λ j e h dead. elim (Bool-cases (k == j)) [
      | inl here ↦
          absurd
            (let q : k ≡ j = (==_iff k j).0 here in let g = rw (← q) at h in let f = gone in cc)
      | inr away ↦
          let q : k ≢ j = ground arith in
          rw (is_default-remove j k ds (same_default k ∙ other), same_default j)
            (v.alive j e (sym (look j q) ∙ h) dead)
    ];
  }
    where
      look : (j : ℕ) → k ≢ j → find j (remove k ds) ≡ find j s.classes
      look j q = find-remove_ne j k ds q ∙ elsewhere j q

      gone : find k (remove k ds) ≡ none
      gone =
          (find_absent k (remove k ds)).1
            (ground (arith, copies-remove k k ds, same_copies k, v.single k, ==_refl k))
