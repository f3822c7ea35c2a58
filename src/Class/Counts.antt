-- ===== src/Class/Counts.antt =====
-- Lookups among the classes, and how many connections point to a class.
use ithildin.Base.{
  ℕ, ◌+◌, ◌-◌, ◌<◌, ◌≡◌, refl, ◌≢◌, ◌↔◌, inl, inr, Bool, true, false, Option, none, some, List, [],
  ◌∷◌, arith, ◌==◌, if◌then◌else◌, Bool-cases,
}
use ithildin.Class.{Class, Connection, find, put, remove, is_default, class_of, set_class}

abbrev pub one_if : Bool → ℕ
one_if b = if b then 1 else 0

abbrev pub is_class : ℕ → Option ℕ → Bool
is_class k none = false
is_class k (some j) = j == k

-- The connections that point to a class.
unfoldable pub members : ℕ → List Connection → ℕ
members k [] = 0
members k (x ∷ xs) = one_if (is_class k x.cls) + members k xs

-- The classes with an address.
unfoldable pub copies : ℕ → List Class → ℕ
copies k [] = 0
copies k (c ∷ cs) = one_if (c.id == k) + copies k cs

unfoldable pub present : ℕ → List Connection → Bool
present n [] = false
present n (x ∷ xs) = if x.conn == n then true else present n xs

pub members-set_class :
    (k n : ℕ) (cls : Option ℕ) (xs : List Connection)
    → present n xs ≡ true
    → members k (set_class n cls xs) + one_if (is_class k (class_of n xs))
      ≡ members k xs + one_if (is_class k cls)
unfolding members set_class class_of present
members-set_class k n cls [] h = cc
members-set_class k n cls (x ∷ xs) h = elim (Bool-cases (x.conn == n)) [
  | inl e ↦ rw e (omega arith)
  | inr e ↦
      rw e
        (let p : present n xs ≡ true = rw e at h in omega (arith, members-set_class k n cls xs p))
]

pub present-set_class :
    (m n : ℕ) (cls : Option ℕ) (xs : List Connection)
    → present m (set_class n cls xs) ≡ present m xs
unfolding present set_class
present-set_class m n cls [] = refl
present-set_class m n cls (x ∷ xs) = ground (arith, present-set_class m n cls xs)

pub class_of-set_class :
    (n : ℕ) (cls : Option ℕ) (xs : List Connection)
    → present n xs ≡ true
    → class_of n (set_class n cls xs) ≡ cls
unfolding class_of set_class present
class_of-set_class n cls [] h = cc
class_of-set_class n cls (x ∷ xs) h = ground (arith, class_of-set_class n cls xs)

pub present_of_class :
    (n k : ℕ) (xs : List Connection) → class_of n xs ≡ some k → present n xs ≡ true
unfolding class_of present
present_of_class n k [] h = cc
present_of_class n k (x ∷ xs) h = ground (arith, present_of_class n k xs)

pub members_pos : (n k : ℕ) (xs : List Connection) → class_of n xs ≡ some k → 0 < members k xs
unfolding class_of members
members_pos n k [] h = cc
members_pos n k (x ∷ xs) h = ground (arith, members_pos n k xs)

pub find_id : (k : ℕ) (cs : List Class) (c : Class) → find k cs ≡ some c → c.id ≡ k
unfolding find
find_id k [] c e = cc
find_id k (d ∷ cs) c e = ground (arith, find_id k cs c)

-- The write reaches the class, and only it.
pub find-put :
    (k : ℕ) (c d : Class) (cs : List Class)
    → find c.id cs ≡ some d
    → find k (put c cs) ≡ (if c.id == k then some c else find k cs)
unfolding find put
find-put k c d [] h = cc
find-put k c d (e ∷ cs) h = ground (arith, find-put k c d cs)

pub copies-put : (k : ℕ) (c : Class) (cs : List Class) → copies k (put c cs) ≡ copies k cs
unfolding copies put
copies-put k c [] = refl
copies-put k c (e ∷ cs) = ground (arith, copies-put k c cs)

pub is_default-put :
    (k : ℕ) (c : Class) (cs : List Class) → is_default k (put c cs) ≡ is_default k cs
unfolding put
is_default-put k c [] = refl
is_default-put k c (e ∷ cs) = ground arith

pub find_absent : (k : ℕ) (cs : List Class) → (find k cs ≡ none) ↔ (copies k cs ≡ 0)
unfolding find copies
find_absent k [] = ground arith
find_absent k (c ∷ cs) = ground (arith, find_absent k cs)

pub copies-remove :
    (k j : ℕ) (cs : List Class) → copies k (remove j cs) ≡ copies k cs - one_if (j == k)
unfolding copies remove
copies-remove k j [] = ground arith
copies-remove k j (c ∷ cs) = ground (arith, copies-remove k j cs)

pub find-remove_ne : (k j : ℕ) (cs : List Class) → j ≢ k → find k (remove j cs) ≡ find k cs
unfolding find remove
find-remove_ne k j [] n = refl
find-remove_ne k j (c ∷ cs) n = ground (arith, find-remove_ne k j cs)

pub is_default-remove :
    (k j : ℕ) (cs : List Class)
    → is_default j cs ≡ false
    → is_default k (remove j cs) ≡ is_default k cs
unfolding remove
is_default-remove k j [] h = refl
is_default-remove k j (c ∷ cs) h = ground arith
