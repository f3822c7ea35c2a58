-- ===== src/Tests/Irc.antt =====
-- modules/ircd/ircstring.c at the map that lets a and A, b and B be the same.
use ithildin.Base.{◌≡◌, refl, true, [], ◌∷◌}
use ithildin.Text.Case.{Bytes}
use ithildin.IrcString.{CharMap, lookup, build_map, istr_okay}

abbrev lower : Bytes
lower = b'a' ∷ b'b' ∷ []

abbrev upper : Bytes
upper = b'A' ∷ b'B' ∷ []

abbrev mixed : Bytes
mixed = b'a' ∷ b'B' ∷ []

abbrev letters : CharMap
letters = build_map lower upper

nul-letters : lookup letters 0 ≡ 0
unfolding build_map
nul-letters = refl

dash-letters : lookup letters b'-' ≡ 0
unfolding build_map
dash-letters = refl

upper-okay : istr_okay letters upper ≡ true
unfolding istr_okay build_map
upper-okay = refl

mixed-okay : istr_okay letters mixed ≡ true
unfolding istr_okay build_map
mixed-okay = refl
