-- ===== src/Tests/Privilege.antt =====
-- modules/ircd/privilege.c with one configured set.
use ithildin.Base.{
  ℕ, zero, suc, ◌<◌, ◌≡◌, refl, ◌⊎◌, inl, inr, true, false, Option, none, some, List, [], ◌∷◌,
  arith, ◌==◌, if◌then◌else◌, Bool-cases, length, get_or, ℤ, pos,
}
use ithildin.Text.Case.{Bytes}
use ithildin.Privilege.{
  number, Flags, Privilege, State, zeroed, find_privilege, privilege_find_setting,
}
use ithildin.Privilege.Include.{
  IsRank, Found, privilege_find_setting-Found, privilege_find_setting-none,
}
use ithildin.Privilege.Valid.{IsValid, IsBounded, IsUsable, IsTyped}
use ithildin.Privilege.Room.{HasRoom, IsGiven}
use ithildin.Privilege.Sets.{create_privilege, create_privilege_set}
use ithildin.Privilege.Fills.{Fulfils, create_privilege_set-Fulfils}
use ithildin.Privilege.Creates.{Creates, create_privilege-Creates}

-- List 0 includes the set "b", which is list 1 and has the entry "p" of "7".
abbrev entry : Bytes → ℕ → Option Bytes
entry name zero = none
entry name (suc clp) = some (b'7' ∷ [])

abbrev includes : ℕ → List Bytes
includes zero = (b'b' ∷ []) ∷ []
includes (suc clp) = []

abbrev find_set : Bytes → Option ℕ
find_set name = if length name == 1 then some 1 else none

abbrev depth : ℕ → ℕ
depth zero = 1
depth (suc clp) = 0

abbrev seven : Bytes → Option ℤ
seven s = some (pos 7)

abbrev no_number : Bytes → ℤ
no_number s = pos 0

depth-IsRank : IsRank entry includes find_set depth
depth-IsRank zero zero i ent p g = absurd (elim (Bool-cases (length ent == 1)) [
  | inl e ↦ (let h : some 1 ≡ some 0 = rw e at g in cc)
  | inr e ↦ (let h : none ≡ some 0 = rw e at g in cc)
])
depth-IsRank zero (suc b) i ent p g = omega arith
depth-IsRank (suc a) b i ent p g = cc

two_rounds-IsBounded : IsBounded seven no_number entry includes find_set depth 2
two_rounds-IsBounded = record { ranked = depth-IsRank; enough = below }
  where
    below : (clp : ℕ) → depth clp < 2
    below zero = omega arith
    below (suc clp) = omega arith

privilege_find_setting-Found_example :
    (r : Option Bytes) × (privilege_find_setting entry includes find_set 2 (b'p' ∷ []) 0 ≡ some r)
    × Found entry includes find_set (b'p' ∷ []) 0 r
privilege_find_setting-Found_example =
    privilege_find_setting-Found entry includes find_set depth 2 (b'p' ∷ []) 0 depth-IsRank
      (omega arith)

-- A list that includes itself.
abbrev loops : ℕ → List Bytes
loops clp = (b'b' ∷ []) ∷ []

abbrev same_list : Bytes → Option ℕ
same_list name = some 0

privilege_find_setting-none_example :
    privilege_find_setting entry loops same_list 5 (b'p' ∷ []) 0 ≡ none
privilege_find_setting-none_example =
    privilege_find_setting-none entry loops same_list 5 (b'p' ∷ []) (b'b' ∷ []) [] 0 refl refl refl

abbrev int_flags : Flags
int_flags = record { str = false; int = true; bool = false; tuple = false }

-- One set, and no privilege yet.
abbrev no_privileges : State
no_privileges = record {
  privs = [];
  count = 0;
  size = 0;
  sets = (record { name = b'b' ∷ []; vals = [] }) ∷ [];
}

no_privileges-IsValid : IsValid no_privileges
no_privileges-IsValid = record {
  counted = omega arith;
  sized = refl;
  sets = (refl, tt);
  usable = λ i k. absurd (omega arith);
}

create_privilege-Creates_example :
    (num : ℕ) × (t : State) × (create_privilege seven no_number entry includes find_set 2
        (some (b'p' ∷ []))
        int_flags
        (some (number (pos 3)))
        none
        no_privileges
      ≡ some (some num, t))
    × Creates seven no_number entry includes find_set depth 2 (b'p' ∷ []) num t
unfolding IsGiven HasRoom find_privilege
create_privilege-Creates_example =
    create_privilege-Creates seven no_number entry includes find_set depth 2 b'p' [] int_flags
      (number (pos 3)) none no_privileges two_rounds-IsBounded (omega arith, omega arith, tt)
      (inr (refl, (pos 3, refl), inl refl)) no_privileges-IsValid (inr (inr refl)) refl

abbrev lone : Privilege
lone = record {
  name = some (b'p' ∷ []);
  num = some 0;
  flags = int_flags;
  default_val = some (number (pos 3));
  tuples = none;
}

-- One privilege, one place, and no set.
abbrev one_privilege : State
one_privilege = record { privs = lone ∷ []; count = 1; size = 1; sets = [] }

lone-IsUsable : IsUsable lone
unfolding IsTyped
lone-IsUsable = record { named = (b'p' ∷ [], refl); typed = inr (refl, (pos 3, refl), inl refl) }

one_privilege-IsValid : IsValid one_privilege
one_privilege-IsValid = record { counted = omega arith; sized = refl; sets = tt; usable = usable }
  where
    usable :
        (i : ℕ)
        → i < 1
        → ((get_or (lone ∷ []) i zeroed).num ≡ none) ⊎ IsUsable (get_or (lone ∷ []) i zeroed)
    usable zero h = inr lone-IsUsable
    usable (suc i) h = absurd (omega arith)

create_privilege_set-Fulfils_example :
    (t : State) × (create_privilege_set seven no_number entry includes find_set 2
        (b'o' ∷ [])
        0
        one_privilege
      ≡ some t)
    × Fulfils seven no_number entry includes find_set depth 2 (b'o' ∷ []) one_privilege t
create_privilege_set-Fulfils_example =
    create_privilege_set-Fulfils seven no_number entry includes find_set depth 2 (b'o' ∷ []) 0
      one_privilege two_rounds-IsBounded (omega arith, omega arith, tt) one_privilege-IsValid
