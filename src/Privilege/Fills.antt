-- ===== src/Privilege/Fills.antt =====
-- modules/ircd/privilege.c: create_privilege_set, and the values in the set that it leaves.
use ithildin.Base.{
  ℕ, zero, suc, ◌+◌, ◌≤◌, ◌<◌, ◌≡◌, refl, ◌∙◌, subst, ◌≢◌, ◌⊎◌, inl, inr, Option, none, some, List,
  arith, leb, ◌==◌, leb→le, Bool-cases, Option-cases, length, get_or, set, replicate, length-set,
  length-replicate, get_or-set_self, get_or-set_ne, ℤ,
}
use ithildin.Text.Case.{Bytes}
use ithildin.Text.Case.{IsText}
use ithildin.Text.Truth.{same_name_iff}
use ithildin.Privilege.{
  Value, Cell, unset, holds, Privilege, PrivilegeSet, State, zeroed, find_privilege_set,
}
use ithildin.Privilege.Values.{set_from}
use ithildin.Privilege.Sets.{insert_set, put_vals, create_privilege_set}
use ithildin.Privilege.ByName.{
  find_privilege_set-All, find_privilege_set-put_vals, All-put_vals, All-insert_set,
  find_privilege_set-insert_set,
}
use ithildin.Privilege.Valid.{IsUsable, IsValid, IsBounded, set_privilege_in_set-some}

-- Each of the `n` places from `i` on is of a dead privilege or of a usable one.
abbrev pub UsableFrom : List Privilege → ℕ → ℕ → Type 0
UsableFrom privs i n =
    (j : ℕ)
    → i ≤ j
    → j < i + n
    → ((get_or privs j zeroed).num ≡ none) ⊎ IsUsable (get_or privs j zeroed)

-- What the loop makes of the values.
record Fills (privs : List Privilege) (i n : ℕ) (vals vals' : List Cell) : Type 0 where
  size : length vals' ≡ length vals
  before : (j : ℕ) → j < i → get_or vals' j unset ≡ get_or vals j unset
  filled :
      (j : ℕ)
      → i ≤ j
      → j < i + n
      → (get_or privs j zeroed).num ≢ none
      → (v : Value) × (get_or vals' j unset ≡ holds v)

module _ (strtol : Bytes → Option ℤ) (atoi : Bytes → ℤ) {A : Type 0}
    (entry : Bytes → A → Option Bytes) (includes : A → List Bytes) (find_set : Bytes → Option A)
    (rank : A → ℕ) (fuel : ℕ) where
  set_from-Fills :
      (privs : List Privilege) (n i : ℕ) (clp : A) (vals : List Cell)
      → IsBounded strtol atoi entry includes find_set rank fuel
      → UsableFrom privs i n
      → i + n ≤ length vals
      → (vals' : List Cell) × (set_from strtol atoi entry includes find_set fuel privs n i clp vals
          ≡ some vals')
        × Fills privs i n vals vals'
  unfolding set_from
  set_from-Fills privs zero i clp vals b u h = (
    vals,
    refl,
    record { size = refl; before = λ j k. refl; filled = λ j k l. absurd (omega arith) },
  )
  set_from-Fills privs (suc n) i clp vals b u h = elim (Option-cases (get_or privs i zeroed).num) [
    | inl e ↦
        let (vals', run, f) =
          set_from-Fills privs n (suc i) clp vals b (λ j k l. u j (omega arith) (omega arith))
            (omega arith) in
        (
          vals',
          rw (set_from, e) run,
          record {
            size = f.size;
            before = λ j k. f.before j (omega arith);
            filled = λ j k l x. elim (Bool-cases (i == j)) [
              | inl same ↦ absurd (
                  let p : i ≡ j = ground arith in
                  x (subst (λ j. (get_or privs j zeroed).num ≡ none) p e))
              | inr other ↦ f.filled j (ground arith) (omega arith) x
            ];
          },
        )
    | inr (num, e) ↦ elim (u i (omega arith) (omega arith)) [
      | inl dead ↦ absurd cc
      | inr usable ↦
          let (v, one) =
            set_privilege_in_set-some strtol atoi entry includes find_set rank fuel privs i clp vals
              b usable in
          let s = length-set vals i (holds v) in
          let (vals', run, f) =
            set_from-Fills privs n (suc i) clp (set vals i (holds v)) b
              (λ j k l. u j (omega arith) (omega arith)) (omega arith) in
          (
            vals',
            rw (set_from, e, one) run,
            record {
              size = f.size ∙ s;
              before = λ j k.
                  f.before j (omega arith) ∙ get_or-set_ne vals i j (holds v) unset (omega arith);
              filled = λ j k l x. elim (Bool-cases (i == j)) [
                | inl same ↦
                    let p : i ≡ j = ground arith in
                    (
                      v,
                      subst (λ j. get_or vals' j unset ≡ holds v) p
                          (f.before i (omega arith)
                            ∙ get_or-set_self vals i (holds v) unset (omega arith)),
                    )
                | inr other ↦ f.filled j (ground arith) (omega arith) x
              ];
            },
          )
    ]
  ]

  all_filled :
      {privs : List Privilege} {n : ℕ} {vals vals' : List Cell}
      → Fills privs 0 n vals vals'
      → (i : ℕ)
      → (n ≤ i)
        ⊎ ((get_or privs i zeroed).num ≡ none)
        ⊎ ((v : Value) × (get_or vals' i unset ≡ holds v))
  all_filled {privs} {n} f i = elim (Bool-cases (leb n i)) [
    | inl e ↦ inl (leb→le n i e)
    | inr e ↦ elim (Option-cases (get_or privs i zeroed).num) [
      | inl d ↦ inr (inl d)
      | inr (num, d) ↦ inr (inr (f.filled i (omega arith) (ground arith) (λ x. absurd cc)))
    ]
  ]

  -- What `create_privilege_set` leaves.
  pub record Fulfils (name : Bytes) (s t : State) : Type 0 where
    pub valid : IsValid t
    pub privs : t.privs ≡ s.privs
    pub values :
        (psp : PrivilegeSet) × (find_privilege_set name t.sets ≡ some psp)
        × ((i : ℕ)
            → (s.count ≤ i)
              ⊎ ((get_or s.privs i zeroed).num ≡ none)
              ⊎ ((v : Value) × (get_or psp.vals i unset ≡ holds v)))

  -- On a valid state, where the included sets have a rank and the fuel is more than it,
  -- `create_privilege_set` succeeds, for a new set as for one that is there. The state stays
  -- valid with its privileges, and the set with the name has a value for every privilege that is
  -- not dead.
  pub create_privilege_set-Fulfils :
      (name : Bytes) (conf : A) (s : State)
      → IsBounded strtol atoi entry includes find_set rank fuel
      → IsText name
      → IsValid s
      → (t : State) × (create_privilege_set strtol atoi entry includes find_set fuel name conf s
          ≡ some t)
        × Fulfils name s t
  unfolding create_privilege_set
  create_privilege_set-Fulfils name conf s b n v =
      elim (Option-cases (find_privilege_set name s.sets)) [
        | inr (psp, e) ↦
            let z =
              find_privilege_set-All (λ psp. length psp.vals ≡ s.size) name s.sets psp v.sets e in
            let (vals, run, f) =
              set_from-Fills s.privs s.count 0 conf psp.vals b (λ j k l. v.usable j (omega arith))
                (omega (arith, v.counted)) in
            (
              record s { sets = put_vals name vals s.sets },
              rw (create_privilege_set, e, run),
              record {
                valid = record {
                  counted = v.counted;
                  sized = v.sized;
                  sets = All-put_vals s.size name vals s.sets (f.size ∙ z) v.sets;
                  usable = v.usable;
                };
                privs = refl;
                values = (
                  record psp { vals = vals },
                  find_privilege_set-put_vals name vals s.sets psp e,
                  λ i. all_filled f i,
                );
              },
            )
        | inl e ↦
            let fresh = replicate s.size unset in
            let z : length fresh ≡ s.size = length-replicate s.size unset in
            let (vals, run, f) =
              set_from-Fills s.privs s.count 0 conf fresh b (λ j k l. v.usable j (omega arith))
                (omega (arith, v.counted)) in
            let psp : PrivilegeSet = record { name = name; vals = vals } in
            (
              record s { sets = insert_set psp s.sets },
              rw (create_privilege_set, e, run),
              record {
                valid = record {
                  counted = v.counted;
                  sized = v.sized;
                  sets =
                      All-insert_set (λ psp. length psp.vals ≡ s.size) psp s.sets (f.size ∙ z)
                        v.sets;
                  usable = v.usable;
                };
                privs = refl;
                values = (
                  psp,
                  find_privilege_set-insert_set name psp s.sets
                      ((same_name_iff name name n n).1 refl) e,
                  λ i. all_filled f i,
                );
              },
            )
      ]
