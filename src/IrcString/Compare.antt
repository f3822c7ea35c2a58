-- ===== src/IrcString/Compare.antt =====
-- Comparison under a map, on strings of the characters that the map allows.
use ithildin.Base.{
  ==_refl, ==_ne, ◌++◌, ℕ, ◌<◌, ◌≡◌, ◌≢◌, ◌↔◌, inl, inr, true, none, some, [], ◌∷◌, map, arith,
  ◌==◌, Bool-cases, take, All, ℤ, pos, neg,
}
use ithildin.Text.Case.{Bytes, IsText}
use ithildin.Text.Compare.{cmp_loop}
use ithildin.Text.Compare.Zero.{IsKey, cmp_loop-zero_iff, ncmp_loop-take}
use ithildin.Text.Compare.Order.{cmp_loop_swap}
use ithildin.IrcString.{CharMap, lookup, istr_okay, istrcmp, istrncmp}

-- A character other than the NUL that the map allows.
abbrev Allowed : CharMap → ℕ → Type 0
Allowed m c = (0 < c) × (lookup m c ≢ 0)

okay-Allowed : (m : CharMap) (s : Bytes) → IsText s → istr_okay m s ≡ true → All (Allowed m) s
unfolding istr_okay
okay-Allowed m [] h e = tt
okay-Allowed m (c ∷ s) h e = elim (Bool-cases (lookup m c == 0)) [
  | inl z ↦ cc (rw z at e)
  | inr n ↦ ((h.0, ground arith), okay-Allowed m s h.2 (rw n at e))
]

lookup-IsKey : (m : CharMap) → lookup m 0 ≡ 0 → IsKey (Allowed m) (lookup m) pos
lookup-IsKey m z = record {
  some_byte = λ c h. h.0;
  nul = λ c h. rw z h.1;
  tell = λ c d h1 h2 e. ground arith;
}

-- Under a map that does not allow the NUL, two strings of allowed characters compare as 0 exactly
-- when the map makes them equal; the comparison stays within the strings, exchanging them changes
-- the sign, and the counted one compares the strings cut to the count.
istrcmp_lem :
    (m : CharMap) (one two : Bytes) (len : ℕ)
    → IsText one
    → IsText two
    → lookup m 0 ≡ 0
    → istr_okay m one ≡ true
    → istr_okay m two ≡ true
    → ((istrcmp m one two ≡ some (pos 0)) ↔ (map (lookup m) one ≡ map (lookup m) two))
      × ((z : ℤ) × (istrcmp m one two ≡ some z) × (istrcmp m two one ≡ some (neg z)))
      × (istrncmp m one two len ≡ istrcmp m (take len one) (take len two))
unfolding istrcmp istrncmp
istrcmp_lem m one two len h1 h2 z e1 e2 =
    let a = okay-Allowed m one h1 e1 in
    let b = okay-Allowed m two h2 e2 in
    let k = lookup-IsKey m z in
    (
      cmp_loop-zero_iff (Allowed m) _ _ k one two a b,
      cmp_loop_swap (Allowed m) _ _ k one two a b,
      ncmp_loop-take (Allowed m) _ _ k len one two a b,
    )

-- Where the second string ends and the first goes on with a character that the map does not
-- allow, after a start that they share and the map allows, the comparison reads past the end of
-- the second.
istrcmp_overread :
    (m : CharMap) (s : Bytes) (c : ℕ) (one : Bytes)
    → IsText s
    → istr_okay m s ≡ true
    → 0 < c
    → lookup m 0 ≡ 0
    → lookup m c ≡ 0
    → istrcmp m (s ++ (c ∷ one)) s ≡ none
unfolding istrcmp cmp_loop istr_okay
istrcmp_overread m [] c one h o p z e = ground arith
istrcmp_overread m (d ∷ s) c one h o p z e = elim (Bool-cases (lookup m d == 0)) [
  | inl zero ↦ cc (rw zero at o)
  | inr n ↦
      rw (==_refl (lookup m d), ==_ne d 0 (omega arith))
        (istrcmp_overread m s c one h.2 (rw n at o) p z e)
]
