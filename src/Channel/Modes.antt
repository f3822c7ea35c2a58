-- ===== src/Channel/Modes.antt =====
-- modules/ircd/channel.c: the table of channel modes, its requests and releases, and the lists that
-- are built from it. Functions of modes and items of extension data are numbers.
pub mod Bits
pub mod Calls
pub mod Install
pub mod Lists
pub mod Prefixes
pub mod Release
pub mod Request
pub mod Table
pub mod Types
use ithildin.Base.{
  ℕ, zero, suc, ◌+◌, ◌^◌, bit_and, Bool, true, false, ◌&&◌, not, Option, none, some, List, [], ◌∷◌,
  ◌++◌, ltb, leb, ◌==◌, if◌then◌else◌,
}
use ithildin.Text.Case.{Bytes, tolower, toupper}

-- `struct chanmode`; `umask`, a `short`, is its pattern of 16 bits.
pub record Chanmode : Type 0 where
  pub mode : ℕ
  pub avail : Bool
  pub mask : ℕ
  pub umask : ℕ
  pub prefix : ℕ
  pub changefunc : Option ℕ
  pub queryfunc : Option ℕ
  pub flags : ℕ
  pub mdi : Option ℕ

-- `ircd.cmodes`, and `mask` of `ircd.umodes.modes`.
pub record Cmodes : Type 0 where
  pub modes : ℕ → Chanmode
  pub pfxmap : ℕ → Option ℕ
  pub avail : Bytes
  pub pmodes : Bytes
  pub prefix : Bytes
  pub chanmodes : Bytes
  pub user_masks : ℕ → ℕ

-- `CHANMODE_FL_PREFIX`
abbrev pub fl_prefix : ℕ
fl_prefix = 0x20

-- What a loop over the first `n` modes writes.
unfoldable pub collect : (ℕ → Bytes) → ℕ → Bytes
collect f zero = []
collect f (suc n) = collect f n ++ f n

unfoldable pub when : Bool → ℕ → Bytes
when b c = if b then c ∷ [] else []

-- !modes[i].avail && modes[i].mask
unfoldable pub in_use : Chanmode → Bool
in_use md = not md.avail && not (md.mask == 0)

-- !modes[i].avail && modes[i].prefix
unfoldable pub has_prefix : Chanmode → Bool
has_prefix md = not md.avail && not (md.prefix == 0)

-- CHANMODE_BUILD_TYPE
unfoldable pub of_type : ℕ → (ℕ → Chanmode) → Bytes
unfolding collect when
of_type flag modes =
    collect
      (λ i. when (not (modes i).avail && not (bit_and (modes i).flags flag == 0)) (modes i).mode)
      256
    ++ (b',' ∷ [])

-- `*--s`: the last character goes.
unfoldable pub without_last : Bytes → Bytes
without_last [] = []
without_last (c ∷ []) = []
without_last (c ∷ d ∷ s) = c ∷ without_last (d ∷ s)

unfoldable pub ends_in_comma : Bytes → Bool
ends_in_comma [] = false
ends_in_comma (c ∷ []) = c == b','
ends_in_comma (c ∷ d ∷ s) = ends_in_comma (d ∷ s)

-- The value of CHANMODES: the modes of the types A to E between commas; the comma in front of E
-- goes where there is no mode of that type.
unfoldable pub types : (ℕ → Chanmode) → Bytes
unfolding of_type without_last ends_in_comma
types modes =
    let imodes =
      of_type 0x01 modes
      ++ (of_type 0x02 modes
          ++ (of_type 0x04 modes ++ (of_type 0x08 modes ++ of_type 0x10 modes))) in
    let s = without_last imodes in if ends_in_comma s then without_last s else s

unfoldable pub chanmode_build_lists : Cmodes → Cmodes
unfolding collect when in_use has_prefix types
chanmode_build_lists s =
    let pmodes = collect (λ i. when (has_prefix (s.modes i)) (s.modes i).mode) 256 in
    let prefixes = collect (λ i. when (has_prefix (s.modes i)) (s.modes i).prefix) 256 in
    record s {
      avail = collect (λ i. when (in_use (s.modes i)) (s.modes i).mode) 256;
      pmodes = pmodes;
      prefix = (b'(' ∷ pmodes) ++ (b')' ∷ prefixes);
      chanmodes = types s.modes;
    }

-- The first number from `i` on that passes, among `rounds`.
unfoldable pub first_from : (ℕ → Bool) → ℕ → ℕ → Option ℕ
first_from p zero i = none
first_from p (suc rounds) i = let rest = first_from p rounds (i + 1) in if p i then some i else rest

unfoldable pub other_case : ℕ → ℕ
unfolding toupper tolower
other_case c = if leb b'a' c && leb c b'z' then toupper c else tolower c

-- The mode that a request gets: the suggested one, that in the other case, or the first one that
-- is available and whose user mode has a mask.
unfoldable pub pick : ℕ → Cmodes → Option ℕ
unfolding other_case first_from
pick suggested s =
    if (s.modes suggested).avail
    then some suggested
    else if (s.modes (other_case suggested)).avail
    then some (other_case suggested)
    else first_from (λ i. (s.modes i).avail && not (s.user_masks i == 0)) 256 0

-- umask == 1 << i, where the `short` is promoted to `int`
unfoldable pub is_bit : ℕ → ℕ → Bool
is_bit umask i = ltb umask (2 ^ 15) && umask == 2 ^ i

-- No mode has the bit.
unfoldable pub is_free : (ℕ → Chanmode) → ℕ → Bool
unfolding first_from is_bit
is_free modes i = elim (first_from (λ j. is_bit (modes j).umask i) 256 0) [
  | none ↦ true
  | some j ↦ false
]

unfoldable pub free_bit : (ℕ → Chanmode) → Option ℕ
unfolding first_from is_free
free_bit modes = first_from (is_free modes) 16 0

unfoldable pub put : ℕ → Chanmode → (ℕ → Chanmode) → ℕ → Chanmode
put k md modes i = if k == i then md else modes i

-- The fields that are filled in first.
unfoldable pub filled : Chanmode → ℕ → ℕ → ℕ → Chanmode
filled md flags change query = record md {
  avail = false;
  umask = 0;
  prefix = 0;
  changefunc = some change;
  queryfunc = some query;
  flags = flags;
  mdi = none;
}

-- What the end of a request adds: the item of extension data, and the lists.
unfoldable pub finish : ℕ → Chanmode → Option ℕ → Cmodes → (ℕ × ℕ) × Cmodes
unfolding put chanmode_build_lists
finish k md item s =
    let md' : Chanmode = record md { mdi = item } in
    ((md.mode, md.mask), chanmode_build_lists (record s { modes = put k md' s.modes }))

-- `item` is what `create_mdext_item` gives where extra data was asked for; the result is the mode
-- and its mask, or none where 0 is returned.
unfoldable pub chanmode_request : ℕ → ℕ → ℕ → ℕ → Option ℕ → ℕ → Cmodes → Option (ℕ × ℕ) × Cmodes
unfolding pick filled free_bit put finish
chanmode_request suggested flags change query item extdata s = elim (pick suggested s) [
  | none ↦ (none, s)
  | some k ↦
      let md = filled (s.modes k) flags change query in
      if flags == fl_prefix
      then elim (free_bit (put k md s.modes)) [
        | none ↦ (none, record s { modes = put k (record md { avail = true }) s.modes })
        | some i ↦
            let md' : Chanmode = record md { umask = 2 ^ i; prefix = extdata } in
            let pfxmap = λ (c : ℕ). if extdata == c then some k else s.pfxmap c in
            let (result, s') = finish k md' item (record s { pfxmap = pfxmap }) in (some result, s')
      ]
      else (let (result, s') = finish k md item s in (some result, s'))
]

-- What a release makes of the table, once the mode is cleared from the channels.
unfoldable pub take_back : ℕ → Cmodes → Cmodes
unfolding put chanmode_build_lists
take_back mode s =
    let md = s.modes mode in
    let md' : Chanmode = record md {
      avail = true;
      umask = 0;
      prefix = 0;
      changefunc = none;
      queryfunc = none;
      flags = 0;
    } in
    chanmode_build_lists (record s {
      modes = put mode md' s.modes;
      pfxmap =
          (if md.prefix == 0
            then s.pfxmap
            else (λ (c : ℕ). if md.prefix == c then none else s.pfxmap c));
    })

-- changefn(NULL, chan, mode, CHANMODE_CLEAR, NULL, &dummy) for each channel
unfoldable pub clear_all : {X : Type 0} → (ℕ → X → X) → List ℕ → X → X
clear_all clear [] x = x
clear_all clear (chan ∷ chans) x = clear_all clear chans (clear chan x)

-- if (mdi != NULL) destroy_mdext_item(ircd.mdext.channel, mdi)
unfoldable pub end_item : {X : Type 0} → (ℕ → X → X) → Option ℕ → X → X
end_item destroy none x = x
end_item destroy (some item) x = destroy item x

-- `change` is what a function of modes does to the extension data of the channels when it is called
-- for a channel to clear a mode, and `destroy` what destroy_mdext_item does to them; `none` is a
-- mode without a function, a null pointer that is read.
unfoldable pub chanmode_release :
    {X : Type 0} → (ℕ → ℕ → ℕ → X → X) → (ℕ → X → X) → List ℕ → ℕ → Cmodes → X → Option (X × Cmodes)
unfolding take_back clear_all end_item
chanmode_release change destroy chans mode s x = elim (s.modes mode).changefunc [
  | none ↦ none
  | some f ↦
      let x' = clear_all (λ chan. change f chan mode) chans x in
      some (end_item destroy (s.modes mode).mdi x', take_back mode s)
]
