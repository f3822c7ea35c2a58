-- ===== src/Class/Enter.antt =====
-- `add_to_class` keeps the state valid.
use ithildin.Base.{
  ℕ, ◌+◌, ◌≡◌, refl, ap, ◌∙◌, ◌≢◌, inl, inr, true, Option, none, some, List, [], ◌∷◌, arith, ◌==◌,
  ==_iff, ==_refl, ==_ne, Bool-cases, Option-cases,
}
use ithildin.Class.{Class, Connection, State, find, put, class_of, set_class, enter, add_to_class}
use ithildin.Class.Counts.{
  one_if, is_class, members, present, members-set_class, class_of-set_class, present-set_class,
  find_id,
}
use ithildin.Class.Invariant.{IsValid}
use ithildin.Class.Operations.{put-IsValid, del_from_class-IsValid}

class_of-set_class_ne :
    (m n : ℕ) (cls : Option ℕ) (xs : List Connection)
    → n ≢ m
    → class_of m (set_class n cls xs) ≡ class_of m xs
unfolding class_of set_class
class_of-set_class_ne m n cls [] q = refl
class_of-set_class_ne m n cls (x ∷ xs) q = ground (arith, class_of-set_class_ne m n cls xs q)

-- What the entry of the connection `n` into the class `k` gives.
pub record Enters (k n : ℕ) (s t : State) : Type 0 where
  pub valid : IsValid t
  pub joined : class_of n t.conns ≡ some k
  pub others : (m : ℕ) → n ≢ m → class_of m t.conns ≡ class_of m s.conns

enter-Enters :
    (k n : ℕ) (c : Class) (s : State)
    → IsValid s
    → present n s.conns ≡ true
    → class_of n s.conns ≡ none
    → find k s.classes ≡ some c
    → (t : State) × (enter k n s ≡ some t) × Enters k n s t
unfolding enter
enter-Enters k n c s v here free found =
    let d : Class = record c { clients = c.clients + 1 } in
    let xs = set_class n (some k) s.conns in
    let gain : (j : ℕ) → members j xs ≡ members j s.conns + one_if (is_class j (some k)) =
      λ j. omega (arith, rw free at (members-set_class j n (some k) s.conns here)) in
    (
      record { classes = put d s.classes; conns = xs },
      rw (found, enter),
      record {
        valid =
            put-IsValid s v k xs
              (λ j q. let e = gain j in let f = rw (==_ne k j q) at e in omega arith) c d found
              (find_id k s.classes c found)
              (let e = gain k in let f = rw (==_refl k) at e in omega (arith, v.counted k c found))
              (inr (inr (omega arith)));
        joined = class_of-set_class n (some k) s.conns here;
        others = λ m q. class_of-set_class_ne m n (some k) s.conns q;
      },
    )

-- `add_to_class` of a connection and a class that are there keeps the state valid, whichever class
-- the connection was in; it points to the class then, and the others point where they did.
pub add_to_class-Enters :
    (k n : ℕ) (c : Class) (s : State)
    → IsValid s
    → present n s.conns ≡ true
    → find k s.classes ≡ some c
    → (t : State) × (add_to_class k n s ≡ some t) × Enters k n s t
unfolding add_to_class
add_to_class-Enters k n c s v here found = elim (Option-cases (class_of n s.conns)) [
  | inl free ↦
      let (t, run, e) = enter-Enters k n c s v here free found in
      (t, rw (free, add_to_class) run, e)
  | inr (j, at) ↦ elim (Bool-cases (j == k)) [
    | inl same ↦ (
      s,
      rw (at, add_to_class, same),
      record { valid = v; joined = at ∙ ap some ((==_iff j k).0 same); others = λ m q. refl },
    )
    | inr other ↦
        let (u, run, valid, free, conns, stay) = del_from_class-IsValid n j s v at in
        let here' : present n u.conns ≡ true =
          rw conns (present-set_class n n none s.conns ∙ here) in
        let (t, run', e) =
          enter-Enters k n c u valid here' free (stay k (ground (arith, other)) ∙ found) in
        (
          t,
          rw (at, add_to_class, other, run) run',
          record {
            valid = e.valid;
            joined = e.joined;
            others = λ m q.
                e.others m q ∙ ap (class_of m) conns ∙ class_of-set_class_ne m n none s.conns q;
          },
        )
  ]
]
