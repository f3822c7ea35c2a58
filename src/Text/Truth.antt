-- ===== src/Text/Truth.antt =====
-- source/string.c: `str_conv_bool` and `bool_conv_str`. `atoi` is a parameter.
use ithildin.Base.{
  ◌≡◌, ap, ◌∙◌, ◌↔◌, inl, inr, Bool, true, false, ◌||◌, not, Option, none, some, [], ◌∷◌, map,
  arith, if◌then◌else◌, Bool-cases, Option-cases, ℤ, pos, negsuc, is_zero,
}
use ithildin.Text.Case.{Bytes, IsText, ascii_lower}
use ithildin.Text.Compare.{strcasecmp}
use ithildin.Text.Compare.Zero.{strcasecmp-zero}

-- !strcasecmp(one, two); a comparison past the ends does not come to an answer.
unfoldable pub same_name : Bytes → Bytes → Bool
same_name one two = elim (strcasecmp one two) [ none ↦ false | some z ↦ is_zero z ]

pub same_name_iff :
    (one two : Bytes)
    → IsText one
    → IsText two
    → (same_name one two ≡ true) ↔ (map ascii_lower one ≡ map ascii_lower two)
unfolding same_name
same_name_iff one two h1 h2 = elim (Option-cases (strcasecmp one two)) [
  | inl e ↦ (
    λ k. absurd (let f = rw (same_name, e) at k in cc),
    λ k. absurd (let f = (strcasecmp-zero one two h1 h2).1 k in cc),
  )
  | inr (z, e) ↦ (
    λ k. (strcasecmp-zero one two h1 h2).0 (e ∙ ap some (is_zero-eq z (rw (same_name, e) at k))),
    λ k.
        (let f = (strcasecmp-zero one two h1 h2).1 k in
          let g : z ≡ pos 0 = cc in rw (same_name, e) (ap is_zero g)),
  )
]
  where
    is_zero-eq : (z : ℤ) → is_zero z ≡ true → z ≡ pos 0
    is_zero-eq (pos n) h = ground arith
    is_zero-eq (negsuc n) h = cc

module _ (atoi : Bytes → ℤ) where
  unfoldable pub str_conv_bool : Option Bytes → Bool → Bool
  str_conv_bool none default = default
  str_conv_bool (some str) default =
      if same_name str (b'y' ∷ b'e' ∷ b's' ∷ [])
        || same_name str (b'o' ∷ b'n' ∷ [])
        || not (is_zero (atoi str))
      then true
      else if same_name str (b'n' ∷ b'o' ∷ [])
          || same_name str (b'o' ∷ b'f' ∷ b'f' ∷ [])
          || is_zero (atoi str)
      then false
      else default

abbrev pub bool_conv_str : Bool → Bytes → Bytes → Bytes
bool_conv_str val if_true if_false = if val then if_true else if_false

-- What `str_conv_bool` reads from a string does not depend on the default: a string that says
-- neither is false.
pub str_conv_bool_default :
    (atoi : Bytes → ℤ) (str : Bytes) (default default' : Bool)
    → str_conv_bool atoi (some str) default ≡ str_conv_bool atoi (some str) default'
unfolding str_conv_bool
str_conv_bool_default atoi str default default' = elim (Bool-cases (is_zero (atoi str))) [
  | inl e ↦ rw e (ground arith)
  | inr e ↦ rw e (ground arith)
]
