-- ===== src/IrcString.antt =====
-- modules/ircd/ircstring.c: maps of the characters that a name may have, with those that count as
-- equal, and comparison under such a map.
pub mod Compare
pub mod Build
use ithildin.Base.{
  ℕ, zero, suc, ◌+◌, ◌-◌, ◌*◌, ◌%◌, Bool, true, false, ◌&&◌, Option, none, some, List, [], ◌∷◌,
  ◌++◌, map, ltb, leb, ◌==◌, if◌then◌else◌, length, get_or, set, replicate, ℤ, pos,
}
use ithildin.Text.Case.{Bytes}
use ithildin.Text.Compare.{cmp_loop, ncmp_loop}

-- `unsigned char map[256]`
abbrev pub CharMap : Type 0
CharMap = List ℕ

abbrev pub lookup : CharMap → ℕ → ℕ
lookup map c = get_or map c 0

abbrev is_digit_to : ℕ → ℕ → Bool
is_digit_to hi c = leb b'0' c && leb c hi

-- The first pass: `\ddd`, with a first digit up to 2, is the character of that number.
unfoldable pub unescape : Bytes → Bytes
unescape (s ∷ a ∷ b ∷ c ∷ rest) =
    let value = ((a - 48) * 100 + (b - 48) * 10 + (c - 48)) % 256 in
    let escaped = value ∷ unescape rest in
    let plain = s ∷ unescape (a ∷ b ∷ c ∷ rest) in
    if s == 92 && (is_digit_to b'2' a && (is_digit_to b'9' b && is_digit_to b'9' c))
    then escaped
    else plain
unescape (s ∷ rest) = s ∷ unescape rest
unescape [] = []

-- The text up to a NUL that an escape has made.
unfoldable pub until_nul : Bytes → Bytes
until_nul [] = []
until_nul (c ∷ s) = if c == 0 then [] else c ∷ until_nul s

-- The characters from `c` on, `n` of them.
unfoldable pub run_from : ℕ → ℕ → Bytes
run_from zero c = []
run_from (suc n) c = c ∷ run_from n (c + 1)

-- The second pass: `a-z` is each character from `a` to `z`; `none` where a range runs backwards.
unfoldable pub expand : Bytes → Option Bytes
unfolding run_from
expand (c ∷ d ∷ e ∷ rest) =
    let range = elim (expand rest) as (λ o. Option Bytes) [
      | none ↦ none
      | some out ↦ some (run_from (e - c) c ++ (e ∷ out))
    ] in
    let plain = elim (expand (d ∷ e ∷ rest)) as (λ o. Option Bytes) [
      | none ↦ none
      | some out ↦ some (c ∷ out)
    ] in
    if d == b'-' then if ltb e c then none else range else plain
expand (c ∷ rest) = elim (expand rest) [ none ↦ none | some out ↦ some (c ∷ out) ]
expand [] = some []

-- `malformed` is the return of 0, `overrun` a write past the 256 characters of `to`.
pub data Translated : Type 0 where
  text : Bytes → Translated
  malformed overrun : Translated

unfoldable pub istr_translate : Bytes → Translated
unfolding unescape until_nul expand
istr_translate from = elim (expand (until_nul (unescape from))) [
  | none ↦ malformed
  | some out ↦ if ltb (length out) 256 then text out else overrun
]

-- map[*s] = *s for each character of `left`
unfoldable pub map_left : Bytes → CharMap → CharMap
map_left [] map = map
map_left (c ∷ left) map = map_left left (set map c c)

-- map[*s] = left[s - right] for each character of `right`
unfoldable pub map_right : Bytes → Bytes → CharMap → CharMap
map_right [] left map = map
map_right (c ∷ right) [] map = map
map_right (c ∷ right) (l ∷ left) map = map_right right left (set map c l)

unfoldable pub build_map : Bytes → Bytes → CharMap
unfolding map_left map_right
build_map left right = map_right right left (map_left left (replicate 256 0))

pub data MapResult : Type 0 where
  built : CharMap → MapResult
  refused : MapResult
  out_of_bounds : MapResult

join_sides : Translated → Translated → MapResult
join_sides (text left) (text right) =
    if ltb (length left) (length right) then refused else built (build_map left right)
join_sides overrun r = out_of_bounds
join_sides malformed r = refused
join_sides (text left) overrun = out_of_bounds
join_sides (text left) malformed = refused

-- `istr_map` of "left right"; the code has no valid length for the left side where the string has
-- no space, and that call is not modelled.
unfoldable pub istr_map : Bytes → Bytes → MapResult
unfolding join_sides istr_translate
istr_map left right = join_sides (istr_translate left) (istr_translate right)

unfoldable pub istr_okay : CharMap → Bytes → Bool
istr_okay map [] = true
istr_okay map (c ∷ string) = if lookup map c == 0 then false else istr_okay map string

-- Bytes are compared through the map, and the difference is of the bytes themselves.
unfoldable pub istrcmp : CharMap → Bytes → Bytes → Option ℤ
istrcmp map = cmp_loop (lookup map) pos

unfoldable pub istrncmp : CharMap → Bytes → Bytes → ℕ → Option ℤ
istrncmp map one two len = ncmp_loop (lookup map) pos len one two
