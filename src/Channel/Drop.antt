-- ===== src/Channel/Drop.antt =====
-- The end of a link keeps the state valid.
use ithildin.Base.{
  ℕ, ◌+◌, ◌<◌, ◌≡◌, refl, sym, ap, ◌∙◌, subst, ◌≢◌, ◌⊎◌, inl, inr, Bool, true, false, Option, none,
  some, List, arith, ◌==◌, ==_iff, ==_refl, Bool-cases, u32, length,
}
use ithildin.Channel.{Link, Notice, State, unlink, update, drop_link}
use ithildin.Channel.Walk.{one_if, count, count-unlink, length-unlink, update_ne}
use ithildin.Channel.Valid.{on_chan, on_cli, IsValid, Finds, member, absent}

-- The links after the one at `l` was freed.
module _ (links : ℕ → Option Link) (l : ℕ) (link : Link) (at : links l ≡ some link) where
  update-none :
      (m : ℕ) (other : Link) → update links l none m ≡ some other → (l ≢ m) × (links m ≡ some other)
  unfolding update
  update-none m other e = elim (Bool-cases (l == m)) [
    | inl q ↦ let f = rw q at e in absurd (cc)
    | inr q ↦ let f = rw q at e in (ground arith, f)
  ]

  shrunk_count :
      (on : Option Link → ℕ) (xs : List ℕ) (m : ℕ)
      → on none ≡ 0
      → on (some link) ≡ 1
      → ((i : ℕ) → count i xs ≡ on (links i))
      → count m (unlink l xs) ≡ on (update links l none m)
  unfolding update
  shrunk_count on xs m z o e =
      let one : count l xs ≡ 1 = e l ∙ ap on at ∙ o in
      let c = count-unlink m l xs (omega arith) in
      elim (Bool-cases (l == m)) [
        | inl q ↦
            let p : l ≡ m = (==_iff l m).0 q in
            let f : count m xs ≡ 1 = rw p at one in let d = rw q at c in rw q (omega arith)
        | inr q ↦ let d = rw q at c in rw q (omega (arith, e m))
      ]

  kept_count :
      (on : Option Link → ℕ) (xs : List ℕ) (m : ℕ)
      → on none ≡ 0
      → on (some link) ≡ 0
      → ((i : ℕ) → count i xs ≡ on (links i))
      → count m xs ≡ on (update links l none m)
  unfolding update
  kept_count on xs m z o e = elim (Bool-cases (l == m)) [
    | inl q ↦
        let p : l ≡ m = (==_iff l m).0 q in
        let f : count l xs ≡ 0 = e l ∙ ap on at ∙ o in
        rw q (subst (λ i. count i xs ≡ on none) p (f ∙ sym z))
    | inr q ↦ rw q (e m)
  ]

module _ {X : Type 0} (notify : Notice → X → X) (clear : ℕ → ℕ → X → X) (l cli chan : ℕ)
    (hook : Bool) (s : State X) (v : IsValid s) (there : 0 < count chan s.channels) (link : Link)
    (at : s.links l ≡ some link) (of_cli : link.cli ≡ cli) (of_chan : link.chan ≡ chan) where
  abbrev after : State X
  after = drop_link notify clear l cli chan hook s

  on_it : (k : ℕ) (b : Bool) → (chan == k) ≡ b → on_chan k (some link) ≡ one_if b
  on_it k b q = rw (of_chan, q)

  of_it : (c : ℕ) (b : Bool) → (cli == c) ≡ b → on_cli c (some link) ≡ one_if b
  of_it c b q = rw (of_cli, q)

  after_users : (k m : ℕ) → count m (after.users k) ≡ on_chan k (after.links m)
  unfolding drop_link update
  after_users k m = elim (Bool-cases (chan == k)) [
    | inl q ↦
        let e =
          subst (λ k. (i : ℕ) → count i (s.users chan) ≡ on_chan k (s.links i))
            ((==_iff chan k).0 q) (v.in_users chan) in
        rw q (shrunk_count s.links l link at (on_chan k) (s.users chan) m refl (on_it k true q) e)
    | inr q ↦ rw q (
        kept_count s.links l link at (on_chan k) (s.users k) m refl (on_it k false q)
          (v.in_users k))
  ]

  after_chans : (c m : ℕ) → count m (after.chans c) ≡ on_cli c (after.links m)
  unfolding drop_link update
  after_chans c m = elim (Bool-cases (cli == c)) [
    | inl q ↦
        let e =
          subst (λ c. (i : ℕ) → count i (s.chans cli) ≡ on_cli c (s.links i)) ((==_iff cli c).0 q)
            (v.in_chans cli) in
        rw q (shrunk_count s.links l link at (on_cli c) (s.chans cli) m refl (of_it c true q) e)
    | inr q ↦ rw q (
        kept_count s.links l link at (on_cli c) (s.chans c) m refl (of_it c false q) (v.in_chans c))
  ]

  one_less : length (unlink l (s.users chan)) + 1 ≡ length (s.users chan)
  one_less = length-unlink l (s.users chan) (
      let e = v.in_users chan l in
      let f = on_it chan true (==_refl chan) in
      let g : on_chan chan (s.links l) ≡ 1 = ap (on_chan chan) at ∙ f in omega arith)

  after_counted : (k : ℕ) → 0 < count k s.channels → after.onchannel k ≡ length (after.users k)
  unfolding drop_link update
  after_counted k h = elim (Bool-cases (chan == k)) [
    | inl q ↦ rw q (omega (arith, v.counted chan there, v.small chan there, one_less))
    | inr q ↦ rw q (v.counted k h)
  ]

  after_small : (k : ℕ) → 0 < count k s.channels → length (after.users k) < u32
  unfolding drop_link update
  after_small k h = elim (Bool-cases (chan == k)) [
    | inl q ↦ rw q (omega (arith, v.small chan there, one_less))
    | inr q ↦ rw q (v.small k h)
  ]

  pub drop_link-IsValid : IsValid (drop_link notify clear l cli chan hook s)
  unfolding drop_link
  drop_link-IsValid = record {
    in_users = after_users;
    in_chans = after_chans;
    counted = after_counted;
    small = after_small;
    live = λ m other e. v.live m other (update-none s.links l link at m other e).1;
    single = v.single;
    alone = λ m n a b e f.
        v.alone m n a b (update-none s.links l link at m a e).1
          (update-none s.links l link at n b f).1;
    stats = v.stats;
    hashed = v.hashed;
    tabled = v.tabled;
  }

  pub drop_link-Finds :
      (c k : ℕ) (o : Option ℕ)
      → (cli ≢ c) ⊎ (chan ≢ k)
      → Finds c k s o
      → Finds c k (drop_link notify clear l cli chan hook s) o
  unfolding drop_link
  drop_link-Finds c k o other (member m a e p q) =
      member m a (update_ne s.links l none m away ∙ e) p q
    where
      away : l ≢ m
      away x =
          let f : s.links m ≡ some link = rw x at at in
          let same : link ≡ a = cc in
          elim other [
            | inl n ↦ n (sym of_cli ∙ ap (λ y. y.cli) same ∙ p)
            | inr n ↦ n (sym of_chan ∙ ap (λ y. y.chan) same ∙ q)
          ]
  drop_link-Finds c k o other (absent all) =
      absent (λ m a e. all m a (update-none s.links l link at m a e).1)

  -- The client is out.
  pub drop_link-absent : Finds cli chan (drop_link notify clear l cli chan hook s) none
  unfolding drop_link
  drop_link-absent = absent (λ m a e p q.
      let (away, f) = update-none s.links l link at m a e in
      away (v.alone l m link a at f (of_cli ∙ sym p) (of_chan ∙ sym q)))
