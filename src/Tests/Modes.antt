-- ===== src/Tests/Modes.antt =====
-- modules/ircd/channel.c: the table of modes with the prefix mode `o` in use and `n` available.
use ithildin.Base.{
  ℕ, ◌+◌, ◌^◌, ◌<◌, ◌≡◌, refl, ◌↔◌, ◌⊎◌, true, false, none, some, [], ◌∷◌, arith, ◌==◌,
  if◌then◌else◌,
}
use ithildin.Text.Case.{Bytes}
use ithildin.Tests.Channel.{chat, chat-IsValid}
use ithildin.Channel.Modes.{
  Chanmode, Cmodes, fl_prefix, collect, when, in_use, has_prefix, pick, clear_all, end_item,
  chanmode_release,
}
use ithildin.Channel.Modes.Calls.{
  nonex, chanmode_set, chanmode_unset, chanmode_query, chanmode_isprefix, chanmode_getprefixes,
}
use ithildin.Channel.Modes.Lists.{contains}
use ithildin.Channel.Modes.Table.{IsValid, chanmode_calls-nonex}
use ithildin.Channel.Modes.Release.{Releases, chanmode_release-Releases}
use ithildin.Channel.Modes.Prefixes.{chanmode_isprefix-getprefixes}

abbrev zeroed : Chanmode
zeroed = record {
  mode = 0;
  avail = false;
  mask = 0;
  umask = 0;
  prefix = 0;
  changefunc = none;
  queryfunc = none;
  flags = 0;
  mdi = none;
}

abbrev op : Chanmode
op = record {
  mode = b'o';
  avail = false;
  mask = 2 ^ 14;
  umask = 1;
  prefix = b'@';
  changefunc = some 1;
  queryfunc = some 2;
  flags = fl_prefix;
  mdi = none;
}

abbrev unused : Chanmode
unused = record zeroed { mode = b'n'; avail = true; mask = 2 ^ 13 }

abbrev modes_of : ℕ → Chanmode
modes_of i = if i == b'o' then op else if i == b'n' then unused else zeroed

abbrev table : Cmodes
table = record {
  modes = modes_of;
  pfxmap = λ c. if c == b'@' then some b'o' else none;
  avail = b'o' ∷ [];
  pmodes = b'o' ∷ [];
  prefix = b'(' ∷ b'o' ∷ b')' ∷ b'@' ∷ [];
  chanmodes = b',' ∷ b',' ∷ b',' ∷ [];
  user_masks = λ i. 1;
}

table-IsValid : IsValid table
unfolding collect when in_use has_prefix
table-IsValid = record {
  own = λ i. ground arith;
  bits = λ i j hi hj n e. ground (arith, n, e);
  mapped = λ c k e. ground (arith, e);
  listed = refl;
  prefixed = refl;
}

below : b'o' < 256
below = omega arith

masked : 0 < (table.modes b'o').mask
masked = omega arith

chanmode_calls-nonex_example :
    ((chanmode_set b'o' table ≡ nonex) ↔ (contains b'o' table.avail ≡ false))
    × ((chanmode_unset b'o' table ≡ nonex) ↔ (contains b'o' table.avail ≡ false))
    × ((chanmode_query b'o' table ≡ nonex) ↔ (contains b'o' table.avail ≡ false))
chanmode_calls-nonex_example = chanmode_calls-nonex table table-IsValid b'o' below

flagless : (i : ℕ) → (table.modes i).mask ≡ 0 → (table.modes i).flags ≡ 0
flagless i z = ground (arith, z)

-- The function of the mode counts the channels.
abbrev count_call : ℕ → ℕ → ℕ → ℕ → ℕ
count_call f chan mode n = n + 1

abbrev count_item : ℕ → ℕ → ℕ
count_item item n = n + 10

chanmode_release-Releases_example :
    (((table.modes b'o').changefunc ≡ none)
      × (chanmode_release count_call count_item (305 ∷ []) b'o' table 0 ≡ none))
    ⊎ ((f : ℕ) × (t : Cmodes) × ((table.modes b'o').changefunc ≡ some f)
        × (chanmode_release count_call count_item (305 ∷ []) b'o' table 0
            ≡ some (
              end_item count_item
                  (table.modes b'o').mdi
                  (clear_all (λ chan. count_call f chan b'o') (305 ∷ []) 0),
              t,
            ))
        × Releases table table-IsValid b'o' below masked flagless t)
chanmode_release-Releases_example =
    chanmode_release-Releases table table-IsValid b'o' below masked flagless count_call count_item
      (305 ∷ []) 0

-- Neither `v` nor `V` is available: the first mode that is, `n`, is taken.
taken : pick b'v' table ≡ some b'n'
unfolding pick
taken = refl

mapped : table.pfxmap b'@' ≡ some b'o'
mapped = refl

chanmode_isprefix-getprefixes_example :
    (n : ℕ) × (prefixes : Bytes) × (chanmode_isprefix 305 7 b'@' table chat ≡ some n)
    × (chanmode_getprefixes 305 7 table chat ≡ some prefixes)
    × ((n ≡ 0) ⊎ (contains b'@' prefixes ≡ true))
chanmode_isprefix-getprefixes_example =
    chanmode_isprefix-getprefixes table table-IsValid b'@' b'o' mapped chat chat-IsValid 7 305

-- The member has the prefix.
operator : chanmode_getprefixes 305 7 table chat ≡ some (b'@' ∷ [])
unfolding chanmode_getprefixes
operator = refl
