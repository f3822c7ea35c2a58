-- ===== src/Channel/Modes/Release.antt =====
-- `chanmode_release` keeps the table of modes valid.
use ithildin.Base.{
  ℕ, ◌^◌, ◌<◌, ◌≡◌, refl, sym, ap, ◌∙◌, subst, ◌≢◌, ◌⊎◌, inl, inr, true, false, none, some, List,
  ◌∷◌, ◌++◌, arith, ◌==◌, Option-cases, ==_iff, ==_refl, ==_ne, Bool-cases,
}
use ithildin.Channel.Modes.{
  Chanmode, Cmodes, collect, when, in_use, has_prefix, chanmode_build_lists, put, types, take_back,
  clear_all, end_item, chanmode_release,
}
use ithildin.Channel.Modes.Lists.{contains}
use ithildin.Channel.Modes.Table.{IsValid, contains-avail, contains-pmodes}
use ithildin.Channel.Modes.Types.{types-absent}

pos_ne_zero : (c : ℕ) → 0 < c → c ≢ 0
pos_ne_zero c g e = omega arith

module _ (s : Cmodes) (v : IsValid s) (mode : ℕ) (small : mode < 256)
    (masked : 0 < (s.modes mode).mask)
    (zeroed : (i : ℕ) → (s.modes i).mask ≡ 0 → (s.modes i).flags ≡ 0) where
  own_mode : (s.modes mode).mode ≡ mode
  own_mode = elim (v.own mode) [ inl (z, a, p) ↦ absurd (omega arith) | inr q ↦ q ]

  abbrev after : Cmodes
  after = take_back mode s

  at_mode :
      ((after.modes mode).avail ≡ true)
      × ((after.modes mode).umask ≡ 0)
      × ((after.modes mode).prefix ≡ 0)
      × ((after.modes mode).mask ≡ (s.modes mode).mask)
      × ((after.modes mode).mode ≡ (s.modes mode).mode)
  unfolding take_back chanmode_build_lists put
  at_mode = rw (==_refl mode) (refl, refl, refl, refl, refl)

  elsewhere : (i : ℕ) → mode ≢ i → after.modes i ≡ s.modes i
  unfolding take_back chanmode_build_lists put
  elsewhere i n = rw (==_ne mode i n)

  -- What the map still holds, it held before, and of other modes.
  mapped_before : (c k : ℕ) → after.pfxmap c ≡ some k → (s.pfxmap c ≡ some k) × (mode ≢ k)
  unfolding take_back chanmode_build_lists
  mapped_before c k e = elim (Bool-cases ((s.modes mode).prefix == 0)) [
    | inl z ↦
        let e' : s.pfxmap c ≡ some k = rw z at e in
        let (a, b, d, g) = v.mapped c k e' in
        (
          e',
          λ q.
              let d' : (s.modes mode).prefix ≡ c = subst (λ i. (s.modes i).prefix ≡ c) (sym q) d in
              pos_ne_zero c g (sym d' ∙ (==_iff _ _).0 z),
        )
    | inr z ↦ elim (Bool-cases ((s.modes mode).prefix == c)) [
      | inl q ↦ let f = rw (z, q) at e in absurd (cc)
      | inr q ↦
          let e' : s.pfxmap c ≡ some k = rw (z, q) at e in
          let (a, b, d, g) = v.mapped c k e' in
          (
            e',
            λ r.
                let d' : (s.modes mode).prefix ≡ c =
                  subst (λ i. (s.modes i).prefix ≡ c) (sym r) d in
                let t = (==_iff (s.modes mode).prefix c).1 d' in cc,
          )
    ]
  ]

  -- A fact of each mode, from the fact before.
  each :
      (P : ℕ → Chanmode → Type 0)
      → P mode (after.modes mode)
      → ((i : ℕ) → P i (s.modes i))
      → (i : ℕ) → P i (after.modes i)
  each P p all i = elim (Bool-cases (mode == i)) [
    | inl q ↦ subst (λ i. P i (after.modes i)) ((==_iff mode i).0 q) p
    | inr q ↦ subst (P i) (sym (elsewhere i (ground arith))) (all i)
  ]

  listed_after : after.avail ≡ collect (λ i. when (in_use (after.modes i)) (after.modes i).mode) 256
  unfolding take_back chanmode_build_lists
  listed_after = refl

  prefixed_after :
      after.pmodes ≡ collect (λ i. when (has_prefix (after.modes i)) (after.modes i).mode) 256
  unfolding take_back chanmode_build_lists
  prefixed_after = refl

  bits_after :
      (i j : ℕ)
      → i < 256
      → j < 256
      → i ≢ j
      → (after.modes i).umask ≡ (after.modes j).umask
      → ((after.modes i).umask ≡ 0) ⊎ ((after.modes i).umask ≡ 2 ^ 15)
  bits_after i j hi hj n e = elim (Bool-cases (mode == i)) [
    | inl q ↦ inl (subst (λ i. (after.modes i).umask ≡ 0) ((==_iff mode i).0 q) at_mode.1)
    | inr q ↦ elim (Bool-cases (mode == j)) [
      | inl r ↦ inl (e ∙ subst (λ j. (after.modes j).umask ≡ 0) ((==_iff mode j).0 r) at_mode.1)
      | inr r ↦
          let si = ap (λ md. md.umask) (elsewhere i (ground (arith, q))) in
          let sj = ap (λ md. md.umask) (elsewhere j (ground (arith, r))) in
          elim (v.bits i j hi hj n (sym si ∙ e ∙ sj)) [
            | inl z ↦ inl (si ∙ z)
            | inr z ↦ inr (si ∙ z)
          ]
    ]
  ]

  after-IsValid : IsValid after
  after-IsValid = record {
    own =
        each (λ i md. ((md.mask ≡ 0) × (md.avail ≡ false) × (md.prefix ≡ 0)) ⊎ (md.mode ≡ i))
          (inr (at_mode.4 ∙ own_mode)) v.own;
    bits = bits_after;
    mapped = λ c k e.
        let (e', n) = mapped_before c k e in
        let (a, b, d, g) = v.mapped c k e' in
        let same = elsewhere k n in
        (a, ap (λ md. md.avail) same ∙ b, ap (λ md. md.prefix) same ∙ d, g);
    listed = listed_after;
    prefixed = prefixed_after;
  }

  -- What a release gives.
  pub record Releases (t : Cmodes) : Type 0 where
    pub valid : IsValid t
    pub free : (t.modes mode).avail ≡ true
    pub unlisted : contains mode t.avail ≡ false
    pub no_prefix : contains mode t.pmodes ≡ false
    -- PREFIX is the list of modes with a prefix in brackets, and their prefixes
    pub prefixes :
        t.prefix
        ≡ (b'(' ∷ t.pmodes)
          ++ (b')' ∷ collect (λ i. when (has_prefix (t.modes i)) (t.modes i).prefix) 256)
    pub untyped : (mode ≡ b',') ⊎ (contains mode t.chanmodes ≡ false)
    pub others : (i : ℕ) → mode ≢ i → t.modes i ≡ s.modes i
    pub unmapped : (c : ℕ) → t.pfxmap c ≢ some mode

  prefix_after :
      after.prefix
      ≡ (b'(' ∷ after.pmodes)
        ++ (b')' ∷ collect (λ i. when (has_prefix (after.modes i)) (after.modes i).prefix) 256)
  unfolding take_back chanmode_build_lists
  prefix_after = refl

  types_after : after.chanmodes ≡ types after.modes
  unfolding take_back chanmode_build_lists
  types_after = refl

  -- A mode with a type has its own character.
  typed : (i : ℕ) → (s.modes i).flags ≢ 0 → (s.modes i).mode ≡ i
  typed i n = elim (v.own i) [ inl (z, a, p) ↦ absurd (n (zeroed i z)) | inr q ↦ q ]

  typed_after : (i : ℕ) → (after.modes i).flags ≢ 0 → (after.modes i).mode ≡ i
  typed_after = each (λ i md. md.flags ≢ 0 → md.mode ≡ i) (λ n. at_mode.4 ∙ own_mode) typed

  released : Releases after
  unfolding in_use has_prefix
  released = record {
    valid = after-IsValid;
    free = at_mode.0;
    unlisted = contains-avail after after-IsValid mode small ∙ rw at_mode.0;
    no_prefix = contains-pmodes after after-IsValid mode small ∙ rw at_mode.0;
    prefixes = prefix_after;
    untyped = elim (Bool-cases (mode == b',')) [
      | inl e ↦ inl ((==_iff mode b',').0 e)
      | inr e ↦ inr (
          ap (contains mode) types_after
          ∙ types-absent after.modes mode typed_after small at_mode.0 (λ q. ground (arith, e, q)))
    ];
    others = elsewhere;
    unmapped = λ c e. (mapped_before c mode e).1 refl;
  }

  -- On a valid table, whose modes without a mask have no flags, chanmode_release of a character
  -- below 256, whose mode has a mask, reads a null pointer exactly if the mode has no function;
  -- else it calls the function for each channel in order, ends the item of extension data that the
  -- mode has, and keeps the table valid: the mode is available, stands in none of the lists of
  -- modes, those of PREFIX and, but for the comma, CHANMODES included, and under no prefix of the
  -- map, and the other modes stay.
  pub chanmode_release-Releases :
      {X : Type 0} (change : ℕ → ℕ → ℕ → X → X) (destroy : ℕ → X → X) (chans : List ℕ) (x : X)
      → (((s.modes mode).changefunc ≡ none)
          × (chanmode_release change destroy chans mode s x ≡ none))
        ⊎ ((f : ℕ) × (t : Cmodes) × ((s.modes mode).changefunc ≡ some f)
            × (chanmode_release change destroy chans mode s x
                ≡ some (
                  end_item destroy
                      (s.modes mode).mdi
                      (clear_all (λ chan. change f chan mode) chans x),
                  t,
                ))
            × Releases t)
  unfolding chanmode_release
  chanmode_release-Releases change destroy chans x = elim (Option-cases (s.modes mode).changefunc) [
    | inl e ↦ inl (e, rw (chanmode_release, e))
    | inr (f, e) ↦ inr (f, after, e, rw (chanmode_release, e), released)
  ]
