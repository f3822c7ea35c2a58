-- ===== src/Channel/Join.antt =====
-- `add_to_channel` keeps the state valid.
use ithildin.Base.{
  ℕ, ◌+◌, ◌<◌, ◌≡◌, refl, sym, ap, ◌∙◌, subst, ◌≢◌, ◌⊎◌, inl, inr, Bool, Option, none, some, List,
  ◌∷◌, arith, ◌==◌, ==_iff, ==_refl, Bool-cases, u32, length,
}
use ithildin.Channel.{Link, Notice, State, update, find_chan_link, add_to_channel}
use ithildin.Channel.Walk.{count, update_ne}
use ithildin.Channel.Valid.{
  on_chan, on_cli, IsValid, Finds, member, absent, Finds-unique, find_chan_link-Finds,
}

-- The links after the one at `l`, where there was none, is `link`.
module _ (links : ℕ → Option Link) (l : ℕ) (link : Link) (free : links l ≡ none) where
  update-some :
      (m : ℕ) (other : Link)
      → update links l (some link) m ≡ some other
      → ((l ≡ m) × (link ≡ other)) ⊎ ((l ≢ m) × (links m ≡ some other))
  unfolding update
  update-some m other e = elim (Bool-cases (l == m)) [
    | inl q ↦ let f = rw q at e in inl ((==_iff l m).0 q, cc)
    | inr q ↦ let f = rw q at e in inr (ground arith, f)
  ]

  -- The counts that the list `l ∷ xs` must have.
  grown_count :
      (on : Option Link → ℕ) (xs : List ℕ) (m : ℕ)
      → on none ≡ 0
      → on (some link) ≡ 1
      → count m xs ≡ on (links m)
      → count m (l ∷ xs) ≡ on (update links l (some link) m)
  unfolding update count
  grown_count on xs m z o e = elim (Bool-cases (l == m)) [
    | inl q ↦
        let p : l ≡ m = (==_iff l m).0 q in
        let f : count m xs ≡ 0 = e ∙ ap on (rw p at free) ∙ z in rw q (omega arith)
    | inr q ↦ rw q (omega arith)
  ]

  kept_count :
      (on : Option Link → ℕ) (xs : List ℕ) (m : ℕ)
      → on none ≡ 0
      → on (some link) ≡ 0
      → count m xs ≡ on (links m)
      → count m xs ≡ on (update links l (some link) m)
  unfolding update
  kept_count on xs m z o e = elim (Bool-cases (l == m)) [
    | inl q ↦
        let p : l ≡ m = (==_iff l m).0 q in
        let f : count m xs ≡ 0 = e ∙ ap on (rw p at free) ∙ z in rw q (omega arith)
    | inr q ↦ rw q e
  ]

module _ {X : Type 0} (notify : Notice → X → X) (clear : ℕ → ℕ → X → X) (l cli chan : ℕ)
    (hook : Bool) (s : State X) (v : IsValid s) (there : 0 < count chan s.channels)
    (free : s.links l ≡ none) (room : length (s.users chan) + 1 < u32)
    (out : find_chan_link cli chan s ≡ some none) where
  abbrev new : Link
  new = record { cli = cli; chan = chan; flags = 0; bans = 0 }

  abbrev after : State X
  after = add_to_channel notify clear l cli chan hook s

  no_link : (m : ℕ) (link : Link) → s.links m ≡ some link → link.cli ≡ cli → link.chan ≢ chan
  no_link m link e a b =
      let (o, run, f) = find_chan_link-Finds s v cli chan in
      let q : o ≡ some m = Finds-unique v f (member m link e a b) in
      let r : some none ≡ some (some m) = sym out ∙ run ∙ ap some q in cc

  after_users : (k m : ℕ) → count m (after.users k) ≡ on_chan k (after.links m)
  unfolding add_to_channel update
  after_users k m = elim (Bool-cases (chan == k)) [
    | inl q ↦
        let e =
          subst (λ k. count m (s.users chan) ≡ on_chan k (s.links m)) ((==_iff chan k).0 q)
            (v.in_users chan m) in
        rw q (grown_count s.links l new free (on_chan k) (s.users chan) m refl (rw q) e)
    | inr q ↦
        rw q (kept_count s.links l new free (on_chan k) (s.users k) m refl (rw q) (v.in_users k m))
  ]

  after_chans : (c m : ℕ) → count m (after.chans c) ≡ on_cli c (after.links m)
  unfolding add_to_channel update
  after_chans c m = elim (Bool-cases (cli == c)) [
    | inl q ↦
        let e =
          subst (λ c. count m (s.chans cli) ≡ on_cli c (s.links m)) ((==_iff cli c).0 q)
            (v.in_chans cli m) in
        rw q (grown_count s.links l new free (on_cli c) (s.chans cli) m refl (rw q) e)
    | inr q ↦
        rw q (kept_count s.links l new free (on_cli c) (s.chans c) m refl (rw q) (v.in_chans c m))
  ]

  after_counted : (k : ℕ) → 0 < count k s.channels → after.onchannel k ≡ length (after.users k)
  unfolding add_to_channel update
  after_counted k h = elim (Bool-cases (chan == k)) [
    | inl q ↦ rw q (omega (arith, v.counted chan there))
    | inr q ↦ rw q (v.counted k h)
  ]

  after_small : (k : ℕ) → 0 < count k s.channels → length (after.users k) < u32
  unfolding add_to_channel update
  after_small k h = elim (Bool-cases (chan == k)) [
    | inl q ↦ rw q (omega arith)
    | inr q ↦ rw q (v.small k h)
  ]

  after_live : (m : ℕ) (link : Link) → after.links m ≡ some link → 0 < count link.chan s.channels
  unfolding add_to_channel
  after_live m link e = elim (update-some s.links l new free m link e) [
    | inl (p, q) ↦ rw (← q) there
    | inr (p, f) ↦ v.live m link f
  ]

  after_alone :
      (m n : ℕ) (link other : Link)
      → after.links m ≡ some link
      → after.links n ≡ some other
      → link.cli ≡ other.cli
      → link.chan ≡ other.chan
      → m ≡ n
  unfolding add_to_channel
  after_alone m n link other e f a b = elim (update-some s.links l new free m link e) [
    | inl (p, q) ↦ elim (update-some s.links l new free n other f) [
      | inl (p', q') ↦ sym p ∙ p'
      | inr (p', g) ↦
          absurd
            (no_link n other g (sym a ∙ ap (λ x. x.cli) (sym q)) (sym b ∙ ap (λ x. x.chan) (sym q)))
    ]
    | inr (p, g) ↦ elim (update-some s.links l new free n other f) [
      | inl (p', q') ↦
          absurd (no_link m link g (a ∙ ap (λ x. x.cli) (sym q')) (b ∙ ap (λ x. x.chan) (sym q')))
      | inr (p', g') ↦ v.alone m n link other g g' a b
    ]
  ]

  after-IsValid : IsValid after
  unfolding add_to_channel
  after-IsValid = record {
    in_users = after_users;
    in_chans = after_chans;
    counted = after_counted;
    small = after_small;
    live = after_live;
    single = v.single;
    alone = after_alone;
    stats = v.stats;
    hashed = v.hashed;
    tabled = v.tabled;
  }

  -- The link of another pair is found as before.
  after-Finds :
      (c k : ℕ) (o : Option ℕ) → (cli ≢ c) ⊎ (chan ≢ k) → Finds c k s o → Finds c k after o
  unfolding add_to_channel
  after-Finds c k o other (member m link e a b) =
      let away : l ≢ m = λ q. let f : s.links m ≡ none = rw q at free in cc in
      member m link (update_ne s.links l (some new) m away ∙ e) a b
  after-Finds c k o other (absent all) = absent (λ m link e a.
      elim (update-some s.links l new free m link e) [
        | inl (p, q) ↦ λ b. elim other [
          | inl n ↦ n (ap (λ x. x.cli) q ∙ a)
          | inr n ↦ n (ap (λ x. x.chan) q ∙ b)
        ]
        | inr (p, f) ↦ all m link f a
      ])

  new_link : after.links l ≡ some new
  unfolding add_to_channel update
  new_link = rw (==_refl l)

  count_one_up : after.onchannel chan ≡ s.onchannel chan + 1
  unfolding add_to_channel update
  count_one_up = rw (==_refl chan) (omega (arith, v.counted chan there))

  -- What the entry of the client gives.
  pub record Joins (t : State X) : Type 0 where
    pub valid : IsValid t
    pub joined : find_chan_link cli chan t ≡ some (some l)
    pub others : (c k : ℕ) → (cli ≢ c) ⊎ (chan ≢ k) → find_chan_link c k t ≡ find_chan_link c k s
    pub count_up : t.onchannel chan ≡ s.onchannel chan + 1

  -- In a valid state add_to_channel of a client that is not in the channel, which is there and has
  -- fewer than 2 ^ 32 - 1 members, with a new link keeps the state valid: the link is found for the
  -- two then, that of any other pair as before, and the channel counts one member more.
  pub add_to_channel-Joins : Joins (add_to_channel notify clear l cli chan hook s)
  add_to_channel-Joins = record {
    valid = after-IsValid;
    joined =
        let (o, run, f) = find_chan_link-Finds after after-IsValid cli chan in
        run ∙ ap some (Finds-unique after-IsValid f (member l new new_link refl refl));
    others = λ c k other.
        let (o, run, f) = find_chan_link-Finds after after-IsValid c k in
        let (o', run', f') = find_chan_link-Finds s v c k in
        run ∙ ap some (Finds-unique after-IsValid f (after-Finds c k o' other f')) ∙ sym run';
    count_up = count_one_up;
  }
