-- ===== src/Text/Match.antt =====
-- source/string.c: `_match` and `match`, wildcard patterns with `*` and `?`.
-- The global `matchdepth` counts the nested calls and is restored by each return, so it is the
-- depth that is left, an argument.
pub mod Spec
pub mod Sound
pub mod Correct
use ithildin.Base.{
  ℕ, zero, suc, ◌*◌, Bool, true, false, ◌&&◌, not, Option, none, some, [], ◌∷◌, ◌==◌, if◌then◌else◌,
  ℤ, pos, negsuc,
}
use ithildin.Text.Case.{Bytes, toupper}
use ithildin.Text.Compare.{strcmp}

abbrev max_match_depth : ℕ
max_match_depth = 12

abbrev same : ℕ → ℕ → Bool
same x c = toupper x == toupper c

-- The loop over every occurrence of the next literal `c`, with `sub` the nested call. The text is
-- at its end after it, so the call returns 0.
scan : (Bytes → Bytes → Bool) → ℕ → Bytes → Bytes → Bool
scan sub c w [] = false
scan sub c w (x ∷ s) = if same x c && sub w s then true else scan sub c w s

-- Behind a star: more stars, and question marks while there is text. The `continue` at a star
-- behind question marks leads back here.
star_loop : (Bytes → Bytes → Bool) → Bytes → Bytes → Bool
unfolding scan
star_loop sub [] s = true
star_loop sub (c ∷ w) [] = if c == b'*' then star_loop sub w [] else scan sub c w []
star_loop sub (c ∷ w) (x ∷ s) =
    let more = star_loop sub w (x ∷ s) in
    let skip = star_loop sub w s in
    if c == b'*' then more else if c == b'?' then skip else scan sub c w (x ∷ s)

-- The `while (1)` loop of one call.
match_loop : (Bytes → Bytes → Bool) → Bytes → Bytes → Bool
unfolding star_loop
match_loop sub [] [] = true
match_loop sub [] (x ∷ s) = false
match_loop sub (c ∷ w) [] = if c == b'*' then star_loop sub w [] else false
match_loop sub (c ∷ w) (x ∷ s) =
    let onward = match_loop sub w s in
    if c == b'*'
    then star_loop sub w (x ∷ s)
    else if not (c == b'?') && not (same x c)
    then false
    else onward

unfoldable pub match_at : ℕ → Bytes → Bytes → Bool
unfolding match_loop
match_at zero w s = false
match_at (suc depth) w s = match_loop (match_at depth) w s

abbrev pub returned_zero : Option ℤ → Bool
returned_zero none = false
returned_zero (some (pos n)) = n == 0
returned_zero (some (negsuc n)) = false

unfoldable pub match : Bytes → Bytes → Bool
unfolding match_at strcmp
match wild string =
    if returned_zero (strcmp wild (b'*' ∷ [])) then true else match_at max_match_depth wild string
