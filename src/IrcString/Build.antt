-- ===== src/IrcString/Build.antt =====
-- The map that `istr_map` builds.
use ithildin.Base.{
  ℕ, ◌<◌, ◌≡◌, refl, ◌∙◌, inl, inr, Bool, true, false, Option, none, some, [], ◌∷◌, arith, ◌==◌,
  if◌then◌else◌, ==_iff, Bool-cases, length, set, replicate, length-set, length-replicate,
  get_or-replicate, get_or-set_self, get_or-set_ne,
}
use ithildin.Text.Case.{Bytes, IsText}
use ithildin.IrcString.{CharMap, lookup, map_left, map_right, build_map}

-- What the last place of `c` in `right` stands for: the character of `left` at that place.
abbrev pub partner : Bytes → Bytes → ℕ → Option ℕ
partner [] left c = none
partner (r ∷ right) [] c = none
partner (r ∷ right) (l ∷ left) c = elim (partner right left c) [
  | some d ↦ some d
  | none ↦ if r == c then some l else none
]

abbrev pub member : ℕ → Bytes → Bool
member c [] = false
member c (d ∷ s) = if d == c then true else member c s

abbrev pub or_value : Option ℕ → ℕ → ℕ
or_value none d = d
or_value (some v) d = v

lookup-set :
    (m : CharMap) (i c v : ℕ)
    → i < length m
    → lookup (set m i v) c ≡ (if i == c then v else lookup m c)
lookup-set m i c v h = elim (Bool-cases (i == c)) [
  | inl e ↦ let p : i ≡ c = (==_iff i c).0 e in rw (e, ← p) (get_or-set_self m i v 0 h)
  | inr e ↦ rw e (get_or-set_ne m i c v 0 (ground arith))
]

lookup-map_left :
    (left : Bytes) (m : CharMap) (c : ℕ)
    → IsText left
    → length m ≡ 256
    → (lookup (map_left left m) c ≡ (if member c left then c else lookup m c))
      × (length (map_left left m) ≡ 256)
unfolding map_left
lookup-map_left [] m c h k = (refl, k)
lookup-map_left (d ∷ left) m c h k =
    let (p, q) = lookup-map_left left (set m d d) c h.2 (length-set m d d ∙ k) in
    (rw p (rw (lookup-set m d c d (omega arith)) (ground arith)), q)

lookup-map_right :
    (right left : Bytes) (m : CharMap) (c : ℕ)
    → IsText right
    → length m ≡ 256
    → lookup (map_right right left m) c ≡ or_value (partner right left c) (lookup m c)
unfolding map_right
lookup-map_right [] left m c h k = refl
lookup-map_right (r ∷ right) [] m c h k = refl
lookup-map_right (r ∷ right) (l ∷ left) m c h k =
    rw (lookup-map_right right left (set m r l) c h.2 (length-set m r l ∙ k))
      (rw (lookup-set m r c l (omega arith)) (ground arith))

-- In the map of two sides a character of the right side stands for the one at its last place in the
-- left side, any other of the left side for itself, and each other character is not allowed.
build_map-lookup :
    (left right : Bytes) (c : ℕ)
    → IsText left
    → IsText right
    → lookup (build_map left right) c
      ≡ or_value (partner right left c) (if member c left then c else 0)
unfolding build_map
build_map-lookup left right c h k =
    let (p, q) = lookup-map_left left (replicate 256 0) c h (length-replicate {A = ℕ} 256 0) in
    rw (lookup-map_right right left (map_left left (replicate 256 0)) c k q, p)
      (rw (get_or-replicate {A = ℕ} 256 c 0))
