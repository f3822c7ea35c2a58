-- ===== src/Channel/Modes/Table.antt =====
-- The table of channel modes agrees with the map of prefixes and the lists that are built from it.
use ithildin.Base.{ℕ, ◌^◌, ◌<◌, ◌≡◌, ap, ◌∙◌, ◌≢◌, ◌↔◌, ◌⊎◌, inl, inr, true, false, some, arith}
use ithildin.Channel.Modes.{Cmodes, collect, when, in_use, has_prefix}
use ithildin.Channel.Modes.Lists.{contains, contains-collect}
use ithildin.Channel.Modes.Calls.{nonex, chanmode_set, chanmode_unset, chanmode_query}

pub record IsValid (s : Cmodes) : Type 0 where
  -- a mode has its own character, but for those that are zeroed out
  pub own :
      (i : ℕ)
      → (((s.modes i).mask ≡ 0) × ((s.modes i).avail ≡ false) × ((s.modes i).prefix ≡ 0))
        ⊎ ((s.modes i).mode ≡ i)
  -- two modes have no bit in common but the last
  pub bits :
      (i j : ℕ)
      → i < 256
      → j < 256
      → i ≢ j
      → (s.modes i).umask ≡ (s.modes j).umask
      → ((s.modes i).umask ≡ 0) ⊎ ((s.modes i).umask ≡ 2 ^ 15)
  pub mapped :
      (c k : ℕ)
      → s.pfxmap c ≡ some k
      → (k < 256) × ((s.modes k).avail ≡ false) × ((s.modes k).prefix ≡ c) × (0 < c)
  pub listed : s.avail ≡ collect (λ i. when (in_use (s.modes i)) (s.modes i).mode) 256
  pub prefixed : s.pmodes ≡ collect (λ i. when (has_prefix (s.modes i)) (s.modes i).mode) 256

module _ (s : Cmodes) (v : IsValid s) (mode : ℕ) (small : mode < 256) where
  in_use-own : (i : ℕ) → in_use (s.modes i) ≡ true → (s.modes i).mode ≡ i
  unfolding in_use
  in_use-own i e = elim (v.own i) [ inl z ↦ absurd (ground arith) | inr q ↦ q ]

  -- The list holds the modes in use.
  pub contains-avail : contains mode s.avail ≡ in_use (s.modes mode)
  contains-avail =
      ap (contains mode) v.listed
      ∙ contains-collect (λ i. in_use (s.modes i)) (λ i. (s.modes i).mode) 256 mode in_use-own
      ∙ ground arith

  has_prefix-own : (i : ℕ) → has_prefix (s.modes i) ≡ true → (s.modes i).mode ≡ i
  unfolding has_prefix
  has_prefix-own i e = elim (v.own i) [ inl z ↦ absurd (ground arith) | inr q ↦ q ]

  -- The list holds the modes with a prefix.
  pub contains-pmodes : contains mode s.pmodes ≡ has_prefix (s.modes mode)
  contains-pmodes =
      ap (contains mode) v.prefixed
      ∙ contains-collect (λ i. has_prefix (s.modes i)) (λ i. (s.modes i).mode) 256 mode
          has_prefix-own
      ∙ ground arith

  -- On a valid table chanmode_set, chanmode_unset and chanmode_query of a character below 256 find
  -- no mode exactly where it does not stand in the list of modes that is told to clients.
  pub chanmode_calls-nonex :
      ((chanmode_set mode s ≡ nonex) ↔ (contains mode s.avail ≡ false))
      × ((chanmode_unset mode s ≡ nonex) ↔ (contains mode s.avail ≡ false))
      × ((chanmode_query mode s ≡ nonex) ↔ (contains mode s.avail ≡ false))
  unfolding chanmode_set chanmode_unset chanmode_query in_use
  chanmode_calls-nonex = rw contains-avail (ground arith)
