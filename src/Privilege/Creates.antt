-- ===== src/Privilege/Creates.antt =====
-- modules/ircd/privilege.c: create_privilege with find_privilege, the sets and destroy_privilege.
use ithildin.Base.{
  ℕ, ◌+◌, ◌<◌, ◌≡◌, refl, sym, ap, ◌∙◌, subst, ◌≢◌, ◌⊎◌, inl, inr, false, Option, none, some, List,
  [], ◌∷◌, arith, leb, ◌==◌, Bool-cases, Option-cases, length, get_or, set, All, length-set,
  get_or-set_self, get_or-set_ne, ℤ,
}
use ithildin.Text.Case.{Bytes, IsText}
use ithildin.Text.Truth.{same_name_iff}
use ithildin.Privilege.{
  Value, unset, holds, Flags, Privilege, PrivilegeSet, State, zeroed, dead, find_privilege,
  destroy_privilege,
}
use ithildin.Privilege.Names.{find_from-set, find_from-set_dead}
use ithildin.Privilege.Sets.{set_in_all, create_privilege}
use ithildin.Privilege.Room.{HasRoom, take_num-Takes, set-set, IsGiven, made, made-IsUsable}
use ithildin.Privilege.Valid.{IsUsable, IsValid, IsBounded, set_privilege_in_set-some}

-- A written entry, and the others, are dead or usable.
set-IsUsable :
    (privs : List Privilege) (num count : ℕ) (pp : Privilege)
    → IsUsable pp
    → num < length privs
    → ((i : ℕ)
        → i < count
        → i ≢ num
        → ((get_or privs i zeroed).num ≡ none) ⊎ IsUsable (get_or privs i zeroed))
    → (i : ℕ) → i < count
    → ((get_or (set privs num pp) i zeroed).num ≡ none)
      ⊎ IsUsable (get_or (set privs num pp) i zeroed)
set-IsUsable privs num count pp u l h i k = elim (Bool-cases (num == i)) [
  | inl e ↦
      let p : num ≡ i = ground arith in
      inr (
        subst (λ i. IsUsable (get_or (set privs num pp) i zeroed)) p
          (subst IsUsable (sym (get_or-set_self privs num pp zeroed l)) u))
  | inr e ↦
      subst (λ q. (q.num ≡ none) ⊎ IsUsable q)
        (sym (get_or-set_ne privs num i pp zeroed (ground arith))) (h i k (ground arith))
]

module _ (strtol : Bytes → Option ℤ) (atoi : Bytes → ℤ) {A : Type 0}
    (entry : Bytes → A → Option Bytes) (includes : A → List Bytes) (find_set : Bytes → Option A)
    (rank : A → ℕ) (fuel : ℕ) where
  -- A set has the size, and a value of the privilege if the configuration has a set with its name.
  HasValue : ℕ → ℕ → PrivilegeSet → Type 0
  HasValue size num psp =
      (length psp.vals ≡ size)
      × ((find_set psp.name ≡ none) ⊎ ((v : Value) × (get_or psp.vals num unset ≡ holds v)))

  set_in_all-All :
      (privs : List Privilege) (num size : ℕ) (sets : List PrivilegeSet)
      → IsBounded strtol atoi entry includes find_set rank fuel
      → IsUsable (get_or privs num zeroed)
      → num < size
      → All (λ psp. length psp.vals ≡ size) sets
      → (sets' : List PrivilegeSet) × (set_in_all strtol atoi entry includes find_set fuel privs num
            sets
          ≡ some sets')
        × All (HasValue size num) sets'
  unfolding set_in_all HasValue
  set_in_all-All privs num size [] b u l a = ([], refl, tt)
  set_in_all-All privs num size (psp ∷ sets) b u l a =
      let (sets', run, all) = set_in_all-All privs num size sets b u l a.1 in
      elim (Option-cases (find_set psp.name)) [
        | inl e ↦ (psp ∷ sets', rw (set_in_all, e, run), ((a.0, inl e), all))
        | inr (list, e) ↦
            let (v, one) =
              set_privilege_in_set-some strtol atoi entry includes find_set rank fuel privs num list
                psp.vals b u in
            (
              (record psp { vals = set psp.vals num (holds v) }) ∷ sets',
              rw (set_in_all, e, one, run),
              (
                (
                  length-set psp.vals num (holds v) ∙ a.0,
                  inr (v, get_or-set_self psp.vals num (holds v) unset (omega (arith, a.0))),
                ),
                all,
              ),
            )
      ]

  sized :
      (size num : ℕ) (sets : List PrivilegeSet)
      → All (HasValue size num) sets
      → All (λ psp. length psp.vals ≡ size) sets
  unfolding HasValue
  sized size num [] a = tt
  sized size num (psp ∷ sets) a = (a.0.0, sized size num sets a.1)

  valued :
      (size num : ℕ) (sets : List PrivilegeSet)
      → All (HasValue size num) sets
      → All
          (λ psp.
            (find_set psp.name ≡ none) ⊎ ((v : Value) × (get_or psp.vals num unset ≡ holds v)))
          sets
  unfolding HasValue
  valued size num [] a = tt
  valued size num (psp ∷ sets) a = (a.0.1, valued size num sets a.1)

  -- What `create_privilege` with the number `num` leaves.
  pub record Creates (name : Bytes) (num : ℕ) (t : State) : Type 0 where
    pub valid : IsValid t
    pub found : find_privilege name t ≡ some num
    pub values :
        All
          (λ psp.
            (find_set psp.name ≡ none) ⊎ ((v : Value) × (get_or psp.vals num unset ≡ holds v)))
          t.sets
    pub gone : find_privilege name (destroy_privilege num t) ≡ none

  -- On a valid state with room, where the included sets have a rank and the fuel is more than it,
  -- a privilege with a new name, a default of the kind of its flags and tuples if it needs them
  -- gets a number. The state stays valid, find_privilege finds the number by the name, each set
  -- that the configuration has gets a value of the privilege, and after destroy_privilege the
  -- name is unknown as before.
  pub create_privilege-Creates :
      (c : ℕ) (cs : Bytes) (flags : Flags) (val : Value) (extra : Option (List (Bytes × ℤ)))
      (s : State)
      → IsBounded strtol atoi entry includes find_set rank fuel
      → IsText (c ∷ cs)
      → IsGiven flags val extra
      → IsValid s
      → HasRoom s
      → find_privilege (c ∷ cs) s ≡ none
      → (num : ℕ) × (t : State) × (create_privilege strtol atoi entry includes find_set fuel
            (some (c ∷ cs))
            flags
            (some val)
            extra
            s
          ≡ some (some num, t))
        × Creates (c ∷ cs) num t
  unfolding create_privilege find_privilege made destroy_privilege
  create_privilege-Creates c cs flags val extra s b n g v r u =
      let name = c ∷ cs in
      let (num, s', run, k) = take_num-Takes name s v r u in
      let pp = made num name flags val extra in
      let here : num < length s'.privs = omega (arith, k.below, k.counted, k.sized) in
      let usable = made-IsUsable num name flags val extra g in
      let self = get_or-set_self s'.privs num pp zeroed here in
      let (sets, all, h) =
        set_in_all-All (set s'.privs num pp) num s'.size s'.sets b
          (subst IsUsable (sym self) usable) (omega (arith, k.below, k.counted)) k.sets in
      let from_zero : 0 + num ≡ num = omega arith in
      let more : leb s'.count num ≡ false = ground (arith, k.below) in
      (
        num,
        record s' { privs = set s'.privs num pp; sets = sets },
        rw (create_privilege, u, run, all),
        record {
          valid = record {
            counted = k.counted;
            sized = length-set s'.privs num pp ∙ k.sized;
            sets = sized s'.size num sets h;
            usable = set-IsUsable s'.privs num s'.count pp usable here k.usable;
          };
          found =
              find_from-set name name s.count s'.count 0 num s'.privs pp refl
                ((same_name_iff name name n n).1 refl) k.unknown k.low k.below here
              ∙ ap some from_zero;
          values = valued s'.size num sets h;
          gone =
              rw (destroy_privilege, more, set-set s'.privs num pp dead)
                (find_from-set_dead name s.count s'.count 0 num s'.privs dead refl k.unknown
                  k.place);
        },
      )
