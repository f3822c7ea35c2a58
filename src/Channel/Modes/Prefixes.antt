-- ===== src/Channel/Modes/Prefixes.antt =====
-- The two ways to learn of the prefixes of a member agree.
use ithildin.Base.{
  ℕ, bit_and, ◌≡◌, refl, ap, ◌∙◌, subst, ◌⊎◌, inl, inr, true, false, Option, some, [], ◌∷◌, arith,
  ◌==◌, ==_iff, ==_refl, Bool-cases,
}
use ithildin.Text.Case.{Bytes}
use ithildin.Channel.{Link, State, find_chan_link}
use ithildin.Channel.Valid
use ithildin.Channel.Valid.{member, absent, find_chan_link-Finds, find_user-find_chan_link}
use ithildin.Channel.Modes.{Cmodes, has_prefix}
use ithildin.Channel.Modes.Calls.{
  chanlink_ismode, ismode_at, chanmode_isprefix, prefixes_of, prefixes_at, chanmode_getprefixes,
}
use ithildin.Channel.Modes.Lists.{contains, contains-collect}
use ithildin.Channel.Modes.Table.{IsValid}

prefixes_of-contains :
    (clp : Link) (s : Cmodes) (k : ℕ) (modes : Bytes)
    → contains k modes ≡ true
    → (bit_and clp.flags (s.modes k).umask == 0) ≡ false
    → contains (s.modes k).prefix (prefixes_of clp modes s) ≡ true
unfolding contains prefixes_of
prefixes_of-contains clp s k [] c b = cc
prefixes_of-contains clp s k (m ∷ modes) c b = elim (Bool-cases (m == k)) [
  | inl q ↦ let e : m ≡ k = (==_iff m k).0 q in rw (e, b, ==_refl (s.modes k).prefix) refl
  | inr q ↦
      let r = prefixes_of-contains clp s k modes (rw q at c) b in
      elim (Bool-cases (bit_and clp.flags (s.modes m).umask == 0)) [
        | inl z ↦ rw z r
        | inr z ↦ rw (z, r) (ground arith)
      ]
]

module _ (s : Cmodes) (v : IsValid s) (c k : ℕ) (found : s.pfxmap c ≡ some k) where
  has_prefix-own : (i : ℕ) → has_prefix (s.modes i) ≡ true → (s.modes i).mode ≡ i
  unfolding has_prefix
  has_prefix-own i e = elim (v.own i) [ inl (z, a, p) ↦ absurd (ground arith) | inr q ↦ q ]

  taken : has_prefix (s.modes k) ≡ true
  unfolding has_prefix
  taken = let (a, b, d, g) = v.mapped c k found in rw b (ground (arith, d, g))

  in_pmodes : contains k s.pmodes ≡ true
  in_pmodes =
      let (a, b, d, g) = v.mapped c k found in
      ap (contains k) v.prefixed
      ∙ contains-collect (λ i. has_prefix (s.modes i)) (λ i. (s.modes i).mode) 256 k has_prefix-own
      ∙ rw taken (ground arith)

  module _ {X : Type 0} (st : State X) (w : Valid.IsValid st) (cli chan : ℕ) where
    both :
        (o : Option ℕ)
        → find_chan_link cli chan st ≡ some o
        → Valid.Finds cli chan st o
        → (n : ℕ) × (prefixes : Bytes) × (chanmode_isprefix chan cli c s st ≡ some n)
          × (chanmode_getprefixes chan cli s st ≡ some prefixes)
          × ((n ≡ 0) ⊎ (contains c prefixes ≡ true))
    unfolding chanmode_isprefix chanmode_getprefixes ismode_at prefixes_at chanlink_ismode
    both o run (absent all) =
        let run' = find_user-find_chan_link st w cli chan ∙ run in
        (0, [], rw (found, chanmode_isprefix, run'), rw (run, chanmode_getprefixes), inl refl)
    both o run (member l link at a b) =
        let run' = find_user-find_chan_link st w cli chan ∙ run in
        let (small, t, d, above) = v.mapped c k found in
        let own = has_prefix-own k taken in
        (
          bit_and link.flags (s.modes k).umask,
          prefixes_of link s.pmodes s,
          rw (found, chanmode_isprefix, run', at, ismode_at, own),
          rw (run, chanmode_getprefixes, at),
          elim (Bool-cases (bit_and link.flags (s.modes k).umask == 0)) [
            | inl z ↦ inl ((==_iff _ _).0 z)
            | inr z ↦ inr (
                subst (λ c. contains c (prefixes_of link s.pmodes s) ≡ true) d
                  (prefixes_of-contains link s k s.pmodes in_pmodes z))
          ],
        )

    -- In valid states both chanmode_isprefix and chanmode_getprefixes end for a prefix of the map;
    -- where the first answers other than 0, the string of the second has the prefix.
    pub chanmode_isprefix-getprefixes :
        (n : ℕ) × (prefixes : Bytes) × (chanmode_isprefix chan cli c s st ≡ some n)
        × (chanmode_getprefixes chan cli s st ≡ some prefixes)
        × ((n ≡ 0) ⊎ (contains c prefixes ≡ true))
    chanmode_isprefix-getprefixes =
        let (o, run, f) = find_chan_link-Finds st w cli chan in both o run f
