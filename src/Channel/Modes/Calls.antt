-- ===== src/Channel/Modes/Calls.antt =====
-- modules/ircd/channel.c: which function a change or a query of a mode calls, and the prefixes of
-- a member of a channel.
use ithildin.Base.{
  ℕ, bit_and, Bool, true, false, ◌||◌, Option, none, some, [], ◌∷◌, ◌==◌, if◌then◌else◌,
}
use ithildin.Text.Case.{Bytes}
use ithildin.Channel.{Link, State, find_chan_link, find_user}
use ithildin.Channel.Modes.{Cmodes}

-- `CHANMODE_NONEX`, or a call of a function with a mode and `CHANMODE_SET` or `CHANMODE_UNSET`, or
-- of a function that is asked.
pub data Call : Type 0 where
  nonex : Call
  change : Option ℕ → ℕ → Bool → Call
  ask : Option ℕ → ℕ → Call

unfoldable pub chanmode_set : ℕ → Cmodes → Call
chanmode_set mode s =
    let cmp = s.modes mode in
    if cmp.avail || cmp.mask == 0 then nonex else change cmp.changefunc mode true

unfoldable pub chanmode_unset : ℕ → Cmodes → Call
chanmode_unset mode s =
    let cmp = s.modes mode in
    if cmp.avail || cmp.mask == 0 then nonex else change cmp.changefunc mode false

unfoldable pub chanmode_query : ℕ → Cmodes → Call
chanmode_query mode s =
    let cmp = s.modes mode in if cmp.avail || cmp.mask == 0 then nonex else ask cmp.queryfunc mode

unfoldable pub chanmode_setprefix : ℕ → Cmodes → Call
chanmode_setprefix prefix s = elim (s.pfxmap prefix) [
  | none ↦ nonex
  | some k ↦ change (s.modes k).changefunc (s.modes k).mode true
]

unfoldable pub chanmode_unsetprefix : ℕ → Cmodes → Call
chanmode_unsetprefix prefix s = elim (s.pfxmap prefix) [
  | none ↦ nonex
  | some k ↦ change (s.modes k).changefunc (s.modes k).mode false
]

-- `chanlink_ismode`
unfoldable pub chanlink_ismode : Link → ℕ → Cmodes → ℕ
chanlink_ismode clp mode s = bit_and clp.flags (s.modes mode).umask

-- `none` is the use of a link that was freed.
unfoldable pub ismode_at : Option Link → ℕ → Cmodes → Option ℕ
unfolding chanlink_ismode
ismode_at none mode s = none
ismode_at (some clp) mode s = some (chanlink_ismode clp mode s)

unfoldable pub chanmode_isprefix : {X : Type 0} → ℕ → ℕ → ℕ → Cmodes → State X → Option ℕ
unfolding find_user ismode_at
chanmode_isprefix chan cli prefix s st = elim (s.pfxmap prefix) [
  | none ↦ some 0
  | some k ↦ elim (find_user cli chan st) [
    | none ↦ none
    | some none ↦ some 0
    | some (some l) ↦ ismode_at (st.links l) (s.modes k).mode s
  ]
]

-- The loop over `pmodes`.
unfoldable pub prefixes_of : Link → Bytes → Cmodes → Bytes
prefixes_of clp [] s = []
prefixes_of clp (mode ∷ pmodes) s =
    if bit_and clp.flags (s.modes mode).umask == 0
    then prefixes_of clp pmodes s
    else (s.modes mode).prefix ∷ prefixes_of clp pmodes s

unfoldable pub prefixes_at : Option Link → Cmodes → Option Bytes
unfolding prefixes_of
prefixes_at none s = none
prefixes_at (some clp) s = some (prefixes_of clp s.pmodes s)

unfoldable pub chanmode_getprefixes : {X : Type 0} → ℕ → ℕ → Cmodes → State X → Option Bytes
unfolding find_chan_link prefixes_at
chanmode_getprefixes chan cli s st = elim (find_chan_link cli chan st) [
  | none ↦ none
  | some none ↦ some []
  | some (some l) ↦ prefixes_at (st.links l) s
]
