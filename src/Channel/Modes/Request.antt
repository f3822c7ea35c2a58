-- ===== src/Channel/Modes/Request.antt =====
-- `chanmode_request` keeps the table of modes valid.
use ithildin.Base.{ℕ, ◌^◌, ◌<◌, ◌≡◌, ◌≢◌, ◌⊎◌, true, false, Option, some, ◌==◌, if◌then◌else◌}
use ithildin.Channel.Modes.{Chanmode, Cmodes, fl_prefix, pick, filled, chanmode_request}
use ithildin.Channel.Modes.Table.{IsValid}

module _ (suggested flags change query : ℕ) (item : Option ℕ) (extdata : ℕ) (s : Cmodes)
    (v : IsValid s) (small : suggested < 256) (printable : 0 < extdata) where
  -- What a request that gets the mode `k` gives.
  pub record Requests (k : ℕ) (t : Cmodes) : Type 0 where
    pub run :
        chanmode_request suggested flags change query item extdata s
        ≡ (some ((s.modes k).mode, (s.modes k).mask), t)
    pub valid : IsValid t
    pub was_free : (s.modes k).avail ≡ true
    pub taken : (t.modes k).avail ≡ false
    pub called : (t.modes k).changefunc ≡ some change
    pub others : (i : ℕ) → k ≢ i → t.modes i ≡ s.modes i
    -- a prefix mode has a bit, and the prefix leads to it
    pub prefixed :
        ((flags ≢ fl_prefix) × (t.pfxmap ≡ s.pfxmap))
        ⊎ ((flags ≡ fl_prefix)
            × (t.pfxmap extdata ≡ some k)
            × ((i : ℕ) × (i < 16) × ((t.modes k).umask ≡ 2 ^ i)))

  module _ (k : ℕ) (picked : pick suggested s ≡ some k) where
    abbrev base : Chanmode
    base = filled (s.modes k) flags change query

    abbrev pfxmap : ℕ → Option ℕ
    pfxmap c = if extdata == c then some k else s.pfxmap c
