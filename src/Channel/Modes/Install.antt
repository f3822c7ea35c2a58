-- ===== src/Channel/Modes/Install.antt =====
-- The table of modes after one that was available has been filled in.
use ithildin.Base.{
  ℕ, ◌^◌, ◌<◌, ◌≡◌, refl, sym, ap, ◌∙◌, subst, ◌≢◌, ◌⊎◌, inl, inr, true, false, Option, some, arith,
  ◌==◌, ==_iff, ==_refl, ==_ne, Bool-cases,
}
use ithildin.Channel.Modes.{
  Chanmode, Cmodes, collect, when, in_use, has_prefix, chanmode_build_lists, put,
}
use ithildin.Channel.Modes.Table.{IsValid}

module _ (s : Cmodes) (v : IsValid s) (k : ℕ) (low : k < 256) (free : (s.modes k).avail ≡ true)
    (md : Chanmode) (same : md.mode ≡ (s.modes k).mode) (taken : md.avail ≡ false)
    (bit : (md.umask ≡ 0)
      ⊎ (md.umask ≡ 2 ^ 15)
      ⊎ ((j : ℕ) → j < 256 → k ≢ j → (s.modes j).umask ≢ md.umask))
    (pfxmap : ℕ → Option ℕ)
    (map_from : (c i : ℕ)
      → pfxmap c ≡ some i
      → ((i ≡ k) × (md.prefix ≡ c) × (0 < c)) ⊎ (s.pfxmap c ≡ some i)) where
  abbrev pub installed : Cmodes
  installed = chanmode_build_lists (record s { modes = put k md s.modes; pfxmap = pfxmap })

  pub at_k : installed.modes k ≡ md
  unfolding chanmode_build_lists put
  at_k = rw (==_refl k)

  pub elsewhere : (i : ℕ) → k ≢ i → installed.modes i ≡ s.modes i
  unfolding chanmode_build_lists put
  elsewhere i n = rw (==_ne k i n)

  each :
      (P : ℕ → Chanmode → Type 0)
      → P k md
      → ((i : ℕ) → P i (s.modes i))
      → (i : ℕ) → P i (installed.modes i)
  each P p all i = elim (Bool-cases (k == i)) [
    | inl q ↦ subst (λ i. P i (installed.modes i)) ((==_iff k i).0 q) (subst (P k) (sym at_k) p)
    | inr q ↦ subst (P i) (sym (elsewhere i (ground (arith, q)))) (all i)
  ]

  pub own_mode : (s.modes k).mode ≡ k
  own_mode = elim (v.own k) [ inl (z, a, p) ↦ absurd (cc) | inr q ↦ q ]

  bits :
      (i j : ℕ)
      → i < 256
      → j < 256
      → i ≢ j
      → (installed.modes i).umask ≡ (installed.modes j).umask
      → ((installed.modes i).umask ≡ 0) ⊎ ((installed.modes i).umask ≡ 2 ^ 15)
  bits i j hi hj n e = elim (Bool-cases (k == i)) [
    | inl q ↦
        let p : k ≡ i = (==_iff k i).0 q in
        let mi : (installed.modes i).umask ≡ md.umask =
          subst (λ i. (installed.modes i).umask ≡ md.umask) p (ap (λ m. m.umask) at_k) in
        let m : k ≢ j = λ r. n (sym p ∙ r) in
        let sj = ap (λ m. m.umask) (elsewhere j m) in
        elim bit [
          | inl z ↦ inl (mi ∙ z)
          | inr (inl z) ↦ inr (mi ∙ z)
          | inr (inr apart) ↦ absurd (apart j hj m (sym sj ∙ sym e ∙ mi))
        ]
    | inr q ↦
        let m : k ≢ i = ground (arith, q) in
        let si = ap (λ m. m.umask) (elsewhere i m) in
        elim (Bool-cases (k == j)) [
          | inl r ↦
              let p : k ≡ j = (==_iff k j).0 r in
              let mj : (installed.modes j).umask ≡ md.umask =
                subst (λ i. (installed.modes i).umask ≡ md.umask) p (ap (λ m. m.umask) at_k) in
              elim bit [
                | inl z ↦ inl (e ∙ mj ∙ z)
                | inr (inl z) ↦ inr (e ∙ mj ∙ z)
                | inr (inr apart) ↦ absurd (apart i hi m (sym si ∙ e ∙ mj))
              ]
          | inr r ↦
              let sj = ap (λ m. m.umask) (elsewhere j (ground (arith, r))) in
              elim (v.bits i j hi hj n (sym si ∙ e ∙ sj)) [
                | inl z ↦ inl (si ∙ z)
                | inr z ↦ inr (si ∙ z)
              ]
        ]
  ]

  mapped :
      (c i : ℕ)
      → installed.pfxmap c ≡ some i
      → (i < 256) × ((installed.modes i).avail ≡ false) × ((installed.modes i).prefix ≡ c) × (0 < c)
  unfolding chanmode_build_lists
  mapped c i e = elim (map_from c i e) [
    | inl (q, p, above) ↦
        subst
          (λ i.
            (i < 256)
            × ((installed.modes i).avail ≡ false)
            × ((installed.modes i).prefix ≡ c)
            × (0 < c))
          (sym q) (low, ap (λ m. m.avail) at_k ∙ taken, ap (λ m. m.prefix) at_k ∙ p, above)
    | inr f ↦
        let (a, b, d, g) = v.mapped c i f in
        let n : k ≢ i = λ r.
          let b' : (s.modes k).avail ≡ false = subst (λ i. (s.modes i).avail ≡ false) (sym r) b in
          cc in
        let same = elsewhere i n in (a, ap (λ m. m.avail) same ∙ b, ap (λ m. m.prefix) same ∙ d, g)
  ]

  listed :
      installed.avail
      ≡ collect (λ i. when (in_use (installed.modes i)) (installed.modes i).mode) 256
  unfolding chanmode_build_lists
  listed = refl

  prefixed :
      installed.pmodes
      ≡ collect (λ i. when (has_prefix (installed.modes i)) (installed.modes i).mode) 256
  unfolding chanmode_build_lists
  prefixed = refl

  pub installed-IsValid : IsValid installed
  installed-IsValid = record {
    own =
        each (λ i md. ((md.mask ≡ 0) × (md.avail ≡ false) × (md.prefix ≡ 0)) ⊎ (md.mode ≡ i))
          (inr (same ∙ own_mode)) v.own;
    bits = bits;
    mapped = mapped;
    listed = listed;
    prefixed = prefixed;
  }
