-- ===== src/Privilege/Room.antt =====
-- The place that create_privilege takes, and the privilege that it puts there.
use ithildin.Base.{
  ℕ, zero, suc, ◌+◌, ◌≤◌, ◌<◌, ◌≡◌, refl, sym, ap, ◌∙◌, ◌≢◌, ◌⊎◌, inl, inr, true, false, ◌&&◌, not,
  Option, none, some, List, [], ◌∷◌, ◌++◌, map, arith, ◌==◌, if◌then◌else◌, Bool-cases,
  Option-cases, length, get_or, set, replicate, All, length-append, length-replicate, ℤ, pos,
  is_zero,
}
use ithildin.Text.Case.{Bytes}
use ithildin.Privilege.{
  Value, text, number, null, Flags, Privilege, PrivilegeSet, State, zeroed, grow_vals, take_num,
  find_from, find_privilege, empty_slot, default_of,
}
use ithildin.Privilege.Names.{empty_slot-lt, find_from-append}
use ithildin.Privilege.Valid.{IsTyped, IsUsable, IsValid}

-- A place is free, a privilege is dead, or nothing was allocated yet.
unfoldable pub HasRoom : State → Type 0
HasRoom s = (s.count < s.size) ⊎ ((i : ℕ) × (empty_slot s.count 0 s.privs ≡ some i)) ⊎ (s.size ≡ 0)

-- What `take_num` gives.
pub record Takes (name : Bytes) (num : ℕ) (s s' : State) : Type 0 where
  pub place : (s'.count ≡ s.count) ⊎ ((s'.count ≡ suc s.count) × (num ≡ s.count))
  pub low : num ≤ s.count
  pub below : num < s'.count
  pub counted : s'.count ≤ s'.size
  pub sized : length s'.privs ≡ s'.size
  pub sets : All (λ psp. length psp.vals ≡ s'.size) s'.sets
  pub unknown : find_from name s.count 0 s'.privs ≡ none
  pub usable :
      (i : ℕ)
      → i < s'.count
      → i ≢ num
      → ((get_or s'.privs i zeroed).num ≡ none) ⊎ IsUsable (get_or s'.privs i zeroed)

All-grow_vals :
    (size : ℕ) (sets : List PrivilegeSet)
    → All (λ psp. length psp.vals ≡ size) sets
    → All (λ psp. length psp.vals ≡ size + 512) (map grow_vals sets)
All-grow_vals size [] a = tt
All-grow_vals size (psp ∷ sets) a = (
  length-append psp.vals (replicate 512 null) ∙ omega (arith, a.0, length-replicate 512 null),
  All-grow_vals size sets a.1,
)

pub take_num-Takes :
    (name : Bytes) (s : State)
    → IsValid s
    → HasRoom s
    → find_privilege name s ≡ none
    → (num : ℕ) × (s' : State) × (take_num s ≡ some (num, s')) × Takes name num s s'
unfolding take_num HasRoom find_privilege
take_num-Takes name s v r u = elim (Bool-cases (s.count == s.size)) [
  | inr e ↦ (
    s.count,
    record s { count = suc s.count },
    rw (take_num, e),
    record {
      place = inr (refl, refl);
      low = omega arith;
      below = omega arith;
      counted = ground (arith, v.counted);
      sized = v.sized;
      sets = v.sets;
      unknown = u;
      usable = λ i k x. v.usable i (omega arith);
    },
  )
  | inl e ↦ elim (Option-cases (empty_slot s.count 0 s.privs)) [
    | inr (i, f) ↦
        let b = empty_slot-lt s.count 0 i s.privs f in
        (
          i,
          s,
          rw (take_num, e, f),
          record {
            place = inl refl;
            low = omega (arith, b.1);
            below = omega (arith, b.1);
            counted = v.counted;
            sized = v.sized;
            sets = v.sets;
            unknown = u;
            usable = λ i k x. v.usable i k;
          },
        )
    | inl f ↦
        let full : s.count ≡ s.size = ground arith in
        let z : s.size ≡ 0 = elim r [
          | inl less ↦ absurd (omega arith)
          | inr (inl (i, g)) ↦ absurd (let h : none ≡ some i = sym f ∙ g in cc)
          | inr (inr z) ↦ z
        ] in
        let y : (s.size == 0) ≡ true = ground arith in
        (
          s.count,
          record {
            privs = s.privs ++ replicate 512 zeroed;
            count = suc s.count;
            size = s.size + 512;
            sets = map grow_vals s.sets;
          },
          rw (take_num, e, f, y),
          record {
            place = inr (refl, refl);
            low = omega arith;
            below = omega arith;
            counted = omega arith;
            sized =
                length-append s.privs (replicate 512 zeroed)
                ∙ omega (arith, v.sized, length-replicate 512 zeroed);
            sets = All-grow_vals s.size s.sets v.sets;
            unknown =
                find_from-append name s.count 0 s.privs (replicate 512 zeroed)
                  (omega (arith, v.sized))
                ∙ u;
            usable = λ i k x. absurd (omega arith);
          },
        )
  ]
]

pub set-set {ℓ} : {A : Type ℓ} (xs : List A) (i : ℕ) (a b : A) → set (set xs i a) i b ≡ set xs i b
set-set [] i a b = refl
set-set (x ∷ xs) zero a b = refl
set-set (x ∷ xs) (suc i) a b = ap (λ l. x ∷ l) (set-set xs i a b)

-- A value of the kind that the flags say, and tuples where they are used.
unfoldable pub IsGiven : Flags → Value → Option (List (Bytes × ℤ)) → Type 0
IsGiven flags val extra =
    ((flags.str ≡ true) × ((s : Bytes) × (val ≡ text s)))
    ⊎ ((flags.str ≡ false)
        × ((n : ℤ) × (val ≡ number n))
        × ((flags.int ≡ true)
            ⊎ (flags.bool ≡ true)
            ⊎ ((flags.tuple ≡ true) × ((l : List (Bytes × ℤ)) × (extra ≡ some l)))))

unfoldable pub made : ℕ → Bytes → Flags → Value → Option (List (Bytes × ℤ)) → Privilege
made num name flags val extra = record {
  name = some name;
  num = some num;
  flags = flags;
  default_val = default_of flags val;
  tuples = if flags.tuple && not flags.str then extra else none;
}

pub made-IsUsable :
    (num : ℕ) (name : Bytes) (flags : Flags) (val : Value) (extra : Option (List (Bytes × ℤ)))
    → IsGiven flags val extra
    → IsUsable (made num name flags val extra)
unfolding IsGiven IsTyped made
made-IsUsable num name flags val extra (inl (k, (s, e))) = record {
  named = (name, refl);
  typed = inl (k, (s, rw (k, e)));
}
made-IsUsable num name flags val extra (inr (k, (n, e), w)) = record {
  named = (name, refl);
  typed = inr (
    k,
    defaults (Bool-cases flags.bool),
    elim w [
      | inl i ↦ inl i
      | inr (inl b) ↦ inr (inl b)
      | inr (inr (t, (l, x))) ↦ inr (inr (l, rw (t, k, x)))
    ],
  );
}
  where
    defaults :
        (flags.bool ≡ true) ⊎ (flags.bool ≡ false)
        → (m : ℤ) × (default_of flags val ≡ some (number m))
    defaults (inl b) = ((if is_zero n then pos 0 else pos 1), rw (k, b, e))
    defaults (inr b) = (n, rw (k, b, e))
