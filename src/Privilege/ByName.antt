-- ===== src/Privilege/ByName.antt =====
-- The sets of privileges by their names.
use ithildin.Base.{
  ℕ, ◌≡◌, ap, subst, inl, inr, true, Option, none, some, List, [], ◌∷◌, Bool-cases, length, All,
}
use ithildin.Text.Case.{Bytes}
use ithildin.Text.Truth.{same_name}
use ithildin.Privilege.{Cell, PrivilegeSet, find_privilege_set}
use ithildin.Privilege.Sets.{insert_set, put_vals}

pub find_privilege_set-All :
    (P : PrivilegeSet → Type 0) (name : Bytes) (sets : List PrivilegeSet) (psp : PrivilegeSet)
    → All P sets
    → find_privilege_set name sets ≡ some psp
    → P psp
unfolding find_privilege_set
find_privilege_set-All P name [] psp a e = cc
find_privilege_set-All P name (x ∷ sets) psp a e = elim (Bool-cases (same_name x.name name)) [
  | inl f ↦
      let g : some x ≡ some psp = rw (find_privilege_set, f) at e in
      let h : x ≡ psp = cc in subst P h a.0
  | inr f ↦ find_privilege_set-All P name sets psp a.1 (rw (find_privilege_set, f) at e)
]

pub find_privilege_set-put_vals :
    (name : Bytes) (vals : List Cell) (sets : List PrivilegeSet) (psp : PrivilegeSet)
    → find_privilege_set name sets ≡ some psp
    → find_privilege_set name (put_vals name vals sets) ≡ some (record psp { vals = vals })
unfolding find_privilege_set put_vals
find_privilege_set-put_vals name vals [] psp e = cc
find_privilege_set-put_vals name vals (x ∷ sets) psp e = elim (Bool-cases (same_name x.name name)) [
  | inl f ↦
      let g : some x ≡ some psp = rw (find_privilege_set, f) at e in
      let h : x ≡ psp = cc in
      let with_vals : PrivilegeSet → Option PrivilegeSet = λ p. some (record p { vals = vals }) in
      rw (put_vals, f, find_privilege_set, f) (ap with_vals h)
  | inr f ↦
      rw (put_vals, f, find_privilege_set, f)
        (find_privilege_set-put_vals name vals sets psp (rw (find_privilege_set, f) at e))
]

pub All-put_vals :
    (size : ℕ) (name : Bytes) (vals : List Cell) (sets : List PrivilegeSet)
    → length vals ≡ size
    → All (λ psp. length psp.vals ≡ size) sets
    → All (λ psp. length psp.vals ≡ size) (put_vals name vals sets)
unfolding put_vals
All-put_vals size name vals [] h a = tt
All-put_vals size name vals (x ∷ sets) h a = elim (Bool-cases (same_name x.name name)) [
  | inl f ↦ rw f (h, a.1)
  | inr f ↦ rw f (a.0, All-put_vals size name vals sets h a.1)
]

pub All-insert_set :
    (P : PrivilegeSet → Type 0) (psp : PrivilegeSet) (sets : List PrivilegeSet)
    → P psp
    → All P sets
    → All P (insert_set psp sets)
All-insert_set P psp [] p a = (p, tt)
All-insert_set P psp (x ∷ sets) p a = (a.0, (p, a.1))

pub find_privilege_set-insert_set :
    (name : Bytes) (psp : PrivilegeSet) (sets : List PrivilegeSet)
    → same_name psp.name name ≡ true
    → find_privilege_set name sets ≡ none
    → find_privilege_set name (insert_set psp sets) ≡ some psp
unfolding find_privilege_set
find_privilege_set-insert_set name psp [] h e = rw (find_privilege_set, h)
find_privilege_set-insert_set name psp (x ∷ sets) h e = elim (Bool-cases (same_name x.name name)) [
  | inl f ↦ absurd (let g = rw (find_privilege_set, f) at e in cc)
  | inr f ↦ rw (find_privilege_set, f, h)
]
