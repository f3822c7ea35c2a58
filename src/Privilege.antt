-- ===== src/Privilege.antt =====
-- modules/ircd/privilege.c: privileges and the sets of their values. The configuration is a
-- parameter: a list of entries has a type of its own, `entry` is conf_find_entry, `includes` are
-- the strings that conf_find_entry_next finds under "include", and `find_set` is conf_find for a
-- list "privilege-set". `strtol` and `atoi` are those of the C library. Memory that is freed is
-- not tracked.
pub mod ByName
pub mod Creates
pub mod Fills
pub mod Include
pub mod Names
pub mod Room
pub mod Sets
pub mod Valid
pub mod Values
use ithildin.Base.{
  ℕ, zero, suc, ◌+◌, Bool, false, Option, none, some, List, [], ◌∷◌, ◌++◌, map, leb, ◌==◌,
  if◌then◌else◌, set, replicate, ℤ, pos, is_zero,
}
use ithildin.Text.Case.{Bytes}
use ithildin.Text.Truth.{same_name}

-- What a value points to: a string or an int64_t.
pub data Value : Type 0 where
  text : Bytes → Value
  number : ℤ → Value

-- A cell of `vals`: never written, a null pointer, or a value.
pub data Cell : Type 0 where
  unset null : Cell
  holds : Value → Cell

-- PRIVILEGE_FL_STR, PRIVILEGE_FL_INT, PRIVILEGE_FL_BOOL and PRIVILEGE_FL_TUPLE
pub record Flags : Type 0 where
  pub str : Bool
  pub int : Bool
  pub bool : Bool
  pub tuple : Bool

-- A name, a default or a list of tuples that is a null pointer or was never written is none, and
-- so is the number -1.
pub record Privilege : Type 0 where
  pub name : Option Bytes
  pub num : Option ℕ
  pub flags : Flags
  pub default_val : Option Value
  pub tuples : Option (List (Bytes × ℤ))

pub record PrivilegeSet : Type 0 where
  pub name : Bytes
  pub vals : List Cell

pub record State : Type 0 where
  pub privs : List Privilege
  pub count : ℕ
  pub size : ℕ
  pub sets : List PrivilegeSet

-- A privilege in memory filled with zeros, and a destroyed one.
abbrev pub zeroed : Privilege
zeroed = record {
  name = none;
  num = some 0;
  flags = record { str = false; int = false; bool = false; tuple = false };
  default_val = none;
  tuples = none;
}

abbrev pub dead : Privilege
dead = record zeroed { num = none }

-- The value behind a pointer to int64_t, and behind one to char; none is a null pointer or a
-- wrong type.
abbrev pub number_at : Option Value → Option ℤ
number_at (some (number n)) = some n
number_at _ = none

abbrev pub text_at : Option Value → Option Bytes
text_at (some (text s)) = some s
text_at _ = none

unfoldable pub tuple_val : Bytes → ℤ → List (Bytes × ℤ) → ℤ
tuple_val s default [] = default
tuple_val s default ((name, val) ∷ tuples) =
    if same_name name s then val else tuple_val s default tuples

-- From place `i` on, the first of `n` privileges with the name.
unfoldable pub find_from : Bytes → ℕ → ℕ → List Privilege → Option ℕ
find_from name zero i pps = none
find_from name (suc n) i [] = none
find_from name (suc n) i (pp ∷ pps) =
    let behind = find_from name n (suc i) pps in
    elim pp.name [ none ↦ behind | some other ↦ if same_name other name then some i else behind ]

unfoldable pub find_privilege : Bytes → State → Option ℕ
unfolding find_from
find_privilege name s = find_from name s.count 0 s.privs

unfoldable pub find_privilege_set : Bytes → List PrivilegeSet → Option PrivilegeSet
find_privilege_set name [] = none
find_privilege_set name (psp ∷ sets) =
    if same_name psp.name name then some psp else find_privilege_set name sets

-- The first privilege of `n` that is dead, from place `i` on.
unfoldable pub empty_slot : ℕ → ℕ → List Privilege → Option ℕ
empty_slot zero i pps = none
empty_slot (suc n) i [] = none
empty_slot (suc n) i (pp ∷ pps) = elim pp.num [
  | none ↦ some i
  | some num ↦ empty_slot n (suc i) pps
]

abbrev pub grow_vals : PrivilegeSet → PrivilegeSet
grow_vals psp = record psp { vals = psp.vals ++ replicate 512 null }

-- The number for a new privilege, and the state with place for it. The calls of memset that clear
-- the new memory multiply by the size of a cell twice; where the arrays had cells before, they
-- write past the end, which is none.
unfoldable pub take_num : State → Option (ℕ × State)
unfolding empty_slot
take_num s =
    if s.count == s.size
    then elim (empty_slot s.count 0 s.privs) [
      | some i ↦ some (i, s)
      | none ↦
          if s.size == 0
          then some (
            s.count,
            record {
              privs = s.privs ++ replicate 512 zeroed;
              count = suc s.count;
              size = s.size + 512;
              sets = map grow_vals s.sets;
            },
          )
          else none
    ]
    else some (s.count, record s { count = suc s.count })

abbrev pub as_bool : Value → Option Value
as_bool (number n) = some (number (if is_zero n then pos 0 else pos 1))
as_bool (text s) = none

-- What create_privilege keeps as the default.
abbrev pub default_of : Flags → Value → Option Value
default_of flags val = if flags.str then some val else if flags.bool then as_bool val else some val

abbrev null_at : ℕ → PrivilegeSet → PrivilegeSet
null_at num psp = record psp { vals = set psp.vals num null }

unfoldable pub destroy_privilege : ℕ → State → State
destroy_privilege num s =
    if leb s.count num
    then s
    else record s { privs = set s.privs num dead; sets = map (null_at num) s.sets }

module _ {A : Type 0} (entry : Bytes → A → Option Bytes) (includes : A → List Bytes)
    (find_set : Bytes → Option A) where
  -- The entries under "include" in turn; the function answers some none where it finds no
  -- setting, and none where its fuel runs out.
  unfoldable pub through : (A → Option (Option Bytes)) → List Bytes → Option (Option Bytes)
  through find [] = some none
  through find (ent ∷ ents) =
      let behind = through find ents in
      elim (find_set ent) [
        | none ↦ behind
        | some list ↦ elim (find list) [
          | none ↦ none
          | some none ↦ behind
          | some (some ret) ↦ some (some ret)
        ]
      ]

  unfoldable pub privilege_find_setting : ℕ → Bytes → A → Option (Option Bytes)
  unfolding through
  privilege_find_setting zero name clp = none
  privilege_find_setting (suc fuel) name clp = elim (entry name clp) [
    | some ent ↦ some (some ent)
    | none ↦ through (privilege_find_setting fuel name) (includes clp)
  ]
