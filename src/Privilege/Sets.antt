-- ===== src/Privilege/Sets.antt =====
-- modules/ircd/privilege.c: the operations on sets of privileges.
use ithildin.Base.{
  ℕ, ◌&&◌, not, Option, none, some, List, [], ◌∷◌, if◌then◌else◌, set, replicate, ℤ,
}
use ithildin.Text.Case.{Bytes}
use ithildin.Privilege.{
  Value, Cell, unset, Flags, Privilege, PrivilegeSet, State, find_privilege, find_privilege_set,
  take_num, default_of,
}
use ithildin.Privilege.Values.{set_from, set_privilege_in_set}
use ithildin.Text.Truth.{same_name}

-- Behind the first set, or as the first.
abbrev pub insert_set : PrivilegeSet → List PrivilegeSet → List PrivilegeSet
insert_set psp [] = psp ∷ []
insert_set psp (head ∷ sets) = head ∷ psp ∷ sets

-- The list with other values for the first set with the name.
unfoldable pub put_vals : Bytes → List Cell → List PrivilegeSet → List PrivilegeSet
put_vals name vals [] = []
put_vals name vals (psp ∷ sets) =
    if same_name psp.name name
    then (record psp { vals = vals }) ∷ sets
    else psp ∷ put_vals name vals sets

module _ (strtol : Bytes → Option ℤ) (atoi : Bytes → ℤ) {A : Type 0}
    (entry : Bytes → A → Option Bytes) (includes : A → List Bytes)
    (find_set : Bytes → Option A) where
  unfoldable pub create_privilege_set : ℕ → Bytes → A → State → Option State
  unfolding find_privilege_set put_vals set_from
  create_privilege_set fuel name conf s = elim (find_privilege_set name s.sets) [
    | some psp ↦
        elim (set_from strtol atoi entry includes find_set fuel s.privs s.count 0 conf psp.vals) [
          | none ↦ none
          | some vals ↦ some (record s { sets = put_vals name vals s.sets })
        ]
    | none ↦
        elim (set_from strtol atoi entry includes find_set fuel s.privs s.count 0 conf
          (replicate s.size unset)) [
            | none ↦ none
            | some vals ↦
                some (record s { sets = insert_set (record { name = name; vals = vals }) s.sets })
          ]
  ]

  -- The loop over the sets for a new privilege.
  unfoldable pub set_in_all :
      ℕ → List Privilege → ℕ → List PrivilegeSet → Option (List PrivilegeSet)
  unfolding set_privilege_in_set
  set_in_all fuel privs num [] = some []
  set_in_all fuel privs num (psp ∷ sets) =
      let psp' = elim (find_set psp.name) as (λ x. Option (List Cell)) [
        | none ↦ some psp.vals
        | some list ↦
            set_privilege_in_set strtol atoi entry includes find_set fuel privs num list psp.vals
      ] in
      elim psp' [
        | none ↦ none
        | some vals ↦ elim (set_in_all fuel privs num sets) [
          | none ↦ none
          | some sets' ↦ some ((record psp { vals = vals }) ∷ sets')
        ]
      ]

  -- A privilege without value, or whose name is empty, in use or a null pointer, gets no number.
  unfoldable pub create_privilege :
      ℕ
      → Option Bytes
      → Flags
      → Option Value
      → Option (List (Bytes × ℤ))
      → State
      → Option (Option ℕ × State)
  unfolding find_privilege take_num set_in_all
  create_privilege fuel none flags val extra s = some (none, s)
  create_privilege fuel (some []) flags val extra s = some (none, s)
  create_privilege fuel (some (c ∷ cs)) flags none extra s = some (none, s)
  create_privilege fuel (some (c ∷ cs)) flags (some val) extra s =
      elim (find_privilege (c ∷ cs) s) [
        | some num ↦ some (none, s)
        | none ↦ elim (take_num s) [
          | none ↦ none
          | some (num, s') ↦
              let pp : Privilege = record {
                name = some (c ∷ cs);
                num = some num;
                flags = flags;
                default_val = default_of flags val;
                tuples = if flags.tuple && not flags.str then extra else none;
              } in
              let privs = set s'.privs num pp in
              elim (set_in_all fuel privs num s'.sets) [
                | none ↦ none
                | some sets ↦ some (some num, record s' { privs = privs; sets = sets })
              ]
        ]
      ]
