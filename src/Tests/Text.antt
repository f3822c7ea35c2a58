-- ===== src/Tests/Text.antt =====
-- source/string.c at concrete strings.
use ithildin.Base.{◌≡◌, refl, ◌↔◌, true, false, some, List, [], ◌∷◌, ◌++◌, arith, All}
use ithildin.Text.Case.{Bytes, IsText, toupper}
use ithildin.Text.Compare.{cmp_loop, schar}
use ithildin.Text.Copy.{strcat}
use ithildin.Text.Copy.Laws.{string_at, strcat_lem}
use ithildin.Text.Split.{delims_in, weave, IsFree, strsep_all, strsep_all_lem}
use ithildin.Text.Match.{match}
use ithildin.Text.Match.Spec.{Matches}
use ithildin.Text.Match.Correct.{match_iff}

-- *.B*, nick.bar, a.Bc and h.
abbrev pattern : Bytes
pattern = b'*' ∷ b'.' ∷ b'B' ∷ b'*' ∷ []

abbrev host : Bytes
host = b'n' ∷ b'i' ∷ b'.' ∷ b'b' ∷ b'a' ∷ []

abbrev other : Bytes
other = b'N' ∷ b'i' ∷ b'.' ∷ b'x' ∷ []

pattern-IsText : IsText pattern
pattern-IsText = omega arith

host-IsText : IsText host
host-IsText = omega arith

other-IsText : IsText other
other-IsText = omega arith

pattern-match : match pattern host ≡ true
unfolding match cmp_loop schar toupper
pattern-match = refl

match_iff_example : (match pattern host ≡ true) ↔ Matches pattern host
match_iff_example = match_iff pattern host pattern-IsText host-IsText (omega arith)

-- The upper table keeps the two cases of h apart.
h_stays : (match (b'h' ∷ []) (b'H' ∷ []) ≡ false) × (match (b'g' ∷ []) (b'G' ∷ []) ≡ true)
unfolding match cmp_loop schar toupper
h_stays = (refl, refl)

strcat_lem_example :
    strcat (string_at host (1 ∷ 2 ∷ 3 ∷ 4 ∷ 5 ∷ [])) (string_at other [])
    ≡ some (string_at (host ++ other) (5 ∷ []))
strcat_lem_example = strcat_lem host other (1 ∷ 2 ∷ 3 ∷ 4 ∷ 5 ∷ []) [] host-IsText other-IsText

abbrev dot : Bytes
dot = b'.' ∷ []

strsep_all_lem_example :
    (ts : List Bytes) × (strsep_all 7 dot (some host) ≡ some ts)
    × All (IsFree dot) ts
    × (weave ts (delims_in dot host) ≡ host)
strsep_all_lem_example = strsep_all_lem dot host 7 (omega arith)
