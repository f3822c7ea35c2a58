-- ===== src/Privilege/Valid.antt =====
-- Privileges whose values can be set, and valid states of the privileges.
use ithildin.Base.{
  ℕ, ◌≤◌, ◌<◌, ◌≡◌, ◌⊎◌, inl, inr, true, false, not, Option, none, some, List, if◌then◌else◌,
  Bool-cases, length, get_or, set, All, ℤ, pos, is_zero,
}
use ithildin.Text.Case.{Bytes}
use ithildin.Text.Time.{as_int, str_conv_int}
use ithildin.Text.Truth.{str_conv_bool}
use ithildin.Privilege.{
  Value, text, number, Cell, holds, Flags, Privilege, State, zeroed, tuple_val,
}
use ithildin.Privilege.Include.{IsRank, privilege_find_setting-Found}
use ithildin.Privilege.Values.{default_value, setting_value, value_for, set_privilege_in_set}

-- A default of the kind that the flags say, and a list of tuples where one is used.
unfoldable pub IsTyped : Flags → Option Value → Option (List (Bytes × ℤ)) → Type 0
IsTyped flags val tuples =
    ((flags.str ≡ true) × ((s : Bytes) × (val ≡ some (text s))))
    ⊎ ((flags.str ≡ false)
        × ((n : ℤ) × (val ≡ some (number n)))
        × ((flags.int ≡ true) ⊎ (flags.bool ≡ true) ⊎ ((l : List (Bytes × ℤ)) × (tuples ≡ some l))))

pub record IsUsable (pp : Privilege) : Type 0 where
  pub named : (name : Bytes) × (pp.name ≡ some name)
  pub typed : IsTyped pp.flags pp.default_val pp.tuples

-- The arrays have `size` cells, of which `count` are in use, by dead privileges and usable ones.
pub record IsValid (s : State) : Type 0 where
  pub counted : s.count ≤ s.size
  pub sized : length s.privs ≡ s.size
  pub sets : All (λ psp. length psp.vals ≡ s.size) s.sets
  pub usable :
      (i : ℕ)
      → i < s.count
      → ((get_or s.privs i zeroed).num ≡ none) ⊎ IsUsable (get_or s.privs i zeroed)

module _ (strtol : Bytes → Option ℤ) (atoi : Bytes → ℤ) where
  default_value-some :
      (pp : Privilege) → IsUsable pp → (v : Value) × (default_value strtol atoi pp ≡ some v)
  unfolding default_value IsTyped
  default_value-some pp u = elim u.typed [
    | inl (k, (s, e)) ↦ (text s, rw (default_value, k, e))
    | inr (k, (n, e), w) ↦ (number n, rw (default_value, k, e))
  ]

  setting_value-some :
      (pp : Privilege) (ret : Bytes)
      → IsUsable pp
      → (v : Value) × (setting_value strtol atoi pp ret ≡ some v)
  unfolding setting_value IsTyped
  setting_value-some pp ret u = elim u.typed [
    | inl (k, (s, e)) ↦ (text ret, rw (setting_value, k))
    | inr (k, (n, e), w) ↦ integral n k e w
  ]
    where
      integral :
          (n : ℤ)
          → pp.flags.str ≡ false
          → pp.default_val ≡ some (number n)
          → (pp.flags.int ≡ true)
            ⊎ (pp.flags.bool ≡ true)
            ⊎ ((l : List (Bytes × ℤ)) × (pp.tuples ≡ some l))
          → (v : Value) × (setting_value strtol atoi pp ret ≡ some v)
      integral n k e w = elim (Bool-cases pp.flags.int) [
        | inl i ↦ (number (str_conv_int strtol ret (as_int n)), rw (setting_value, k, e, i))
        | inr i ↦ elim (Bool-cases pp.flags.bool) [
          | inl b ↦ (
            number (if str_conv_bool atoi (some ret) (not (is_zero n)) then pos 1 else pos 0),
            rw (setting_value, k, e, i, b),
          )
          | inr b ↦ elim w [
            | inl j ↦ absurd cc
            | inr (inl j) ↦ absurd cc
            | inr (inr (l, j)) ↦ (number (tuple_val ret n l), rw (setting_value, k, e, i, b, j))
          ]
        ]
      ]

  module _ {A : Type 0} (entry : Bytes → A → Option Bytes) (includes : A → List Bytes)
      (find_set : Bytes → Option A) (rank : A → ℕ) (fuel : ℕ) where
    -- The sets do not include themselves, and the fuel is more than any rank.
    pub record IsBounded : Type 0 where
      pub ranked : IsRank entry includes find_set rank
      pub enough : (clp : A) → rank clp < fuel

    pub set_privilege_in_set-some :
        (privs : List Privilege) (num : ℕ) (clp : A) (vals : List Cell)
        → IsBounded
        → IsUsable (get_or privs num zeroed)
        → (v : Value) × (set_privilege_in_set strtol atoi entry includes find_set fuel privs num clp
              vals
            ≡ some (set vals num (holds v)))
    unfolding set_privilege_in_set
    set_privilege_in_set-some privs num clp vals b u =
        let pp = get_or privs num zeroed in
        let (name, e) = u.named in
        let (r, run, found) =
          privilege_find_setting-Found entry includes find_set rank fuel name clp b.ranked
            (b.enough clp) in
        let (v, given) = valued r u in (v, rw (set_privilege_in_set, e, run, given))
      where
        valued :
            {pp : Privilege} (r : Option Bytes)
            → IsUsable pp
            → (v : Value) × (value_for strtol atoi pp r ≡ some v)
        valued none u = default_value-some _ u
        valued (some ret) u = setting_value-some _ ret u
