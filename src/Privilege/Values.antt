-- ===== src/Privilege/Values.antt =====
-- modules/ircd/privilege.c: set_privilege_in_set, and the loop that calls it for each privilege.
use ithildin.Base.{
  ℕ, zero, suc, not, Option, none, some, List, if◌then◌else◌, get_or, set, ℤ, pos, is_zero,
}
use ithildin.Text.Case.{Bytes}
use ithildin.Text.Time.{as_int, str_conv_int}
use ithildin.Text.Truth.{str_conv_bool}
use ithildin.Privilege.{
  Value, text, number, Cell, holds, Privilege, zeroed, number_at, text_at, tuple_val,
  privilege_find_setting,
}

module _ (strtol : Bytes → Option ℤ) (atoi : Bytes → ℤ) where
  -- The default of a privilege, and the value of a setting; none reads a null pointer.
  unfoldable pub default_value : Privilege → Option Value
  default_value pp =
      if pp.flags.str
      then elim (text_at pp.default_val) [ none ↦ none | some s ↦ some (text s) ]
      else elim (number_at pp.default_val) [ none ↦ none | some n ↦ some (number n) ]

  unfoldable pub setting_value : Privilege → Bytes → Option Value
  unfolding str_conv_int str_conv_bool tuple_val
  setting_value pp s = if pp.flags.str then some (text s) else elim (number_at pp.default_val) [
    | none ↦ none
    | some d ↦
        if pp.flags.int
        then some (number (str_conv_int strtol s (as_int d)))
        else if pp.flags.bool
        then some (number (if str_conv_bool atoi (some s) (not (is_zero d)) then pos 1 else pos 0))
        else elim pp.tuples [ none ↦ none | some tuples ↦ some (number (tuple_val s d tuples)) ]
  ]

  abbrev pub value_for : Privilege → Option Bytes → Option Value
  value_for pp none = default_value pp
  value_for pp (some ret) = setting_value pp ret

  module _ {A : Type 0} (entry : Bytes → A → Option Bytes) (includes : A → List Bytes)
      (find_set : Bytes → Option A) where
    -- The values after; none is fuel run out, or a null pointer read.
    unfoldable pub set_privilege_in_set :
        ℕ → List Privilege → ℕ → A → List Cell → Option (List Cell)
    unfolding privilege_find_setting default_value setting_value
    set_privilege_in_set fuel privs num clp vals =
        let pp = get_or privs num zeroed in
        elim pp.name [
          | none ↦ none
          | some name ↦ elim (privilege_find_setting entry includes find_set fuel name clp) [
            | none ↦ none
            | some s ↦ elim (value_for pp s) [
              | none ↦ none
              | some val ↦ some (set vals num (holds val))
            ]
          ]
        ]

    -- The loop over `n` privileges from place `i` on.
    unfoldable pub set_from : ℕ → List Privilege → ℕ → ℕ → A → List Cell → Option (List Cell)
    unfolding set_privilege_in_set
    set_from fuel privs zero i clp vals = some vals
    set_from fuel privs (suc n) i clp vals = elim (get_or privs i zeroed).num [
      | none ↦ set_from fuel privs n (suc i) clp vals
      | some num ↦ elim (set_privilege_in_set fuel privs i clp vals) [
        | none ↦ none
        | some vals' ↦ set_from fuel privs n (suc i) clp vals'
      ]
    ]
