-- ===== src/Class/Operations.antt =====
-- The operations on classes keep them valid.
use ithildin.Base.{
  ℕ, ◌+◌, ◌-◌, ◌<◌, ◌≡◌, refl, sym, ap, ◌∙◌, ◌≢◌, ◌⊎◌, inl, inr, Bool, true, false, ◌&&◌, none,
  some, List, arith, ◌==◌, ==_iff, ==_refl, ==_ne, Bool-cases, Option-cases,
}
use ithildin.Class.{
  Class, Connection, State, find, put, remove, is_default, destroy, destroy_class, class_of,
  set_class, leave, del_from_class,
}
use ithildin.Class.Counts.{
  one_if, is_class, members, members-set_class, class_of-set_class, present_of_class, members_pos,
  find_id, find-put, copies-put, is_default-put, find_absent, copies-remove, find-remove_ne,
}
use ithildin.Class.Invariant.{IsValid, keep-IsValid, drop-IsValid}

find-remove_self : (k : ℕ) (s : State) → IsValid s → find k (remove k s.classes) ≡ none
find-remove_self k s v =
    (find_absent k (remove k s.classes)).1
      (ground (arith, copies-remove k k s.classes, v.single k, ==_refl k))

-- `put` of a class with the address of one that is there.
module _ (k : ℕ) (c d : Class) (cs : List Class) (found : find k cs ≡ some c)
    (same : d.id ≡ k) where
  find-put_self : find k (put d cs) ≡ some d
  find-put_self = rw (find-put k d c cs (rw same found), same, ==_refl k)

  find-put_ne : (j : ℕ) → k ≢ j → find j (put d cs) ≡ find j cs
  find-put_ne j q = rw (find-put j d c cs (rw same found), same, ==_ne k j q)

-- `destroy` of a class that is written as `d`, whose clients have been counted.
module _ (s : State) (v : IsValid s) (k : ℕ) (xs : List Connection)
    (others : (j : ℕ) → k ≢ j → members j xs ≡ members j s.conns) (c d : Class)
    (found : find k s.classes ≡ some c) (same : d.id ≡ k) (count : d.clients ≡ members k xs) where
  pub put-IsValid :
      (is_default k s.classes ≡ true) ⊎ (d.dead ≡ false) ⊎ (0 < d.clients)
      → IsValid (record { classes = put d s.classes; conns = xs })
  put-IsValid live =
      keep-IsValid s v k xs others (put d s.classes) (λ j. copies-put j d s.classes)
        (find-put_ne k c d s.classes found same) (λ j. is_default-put j d s.classes) d
        (find-put_self k c d s.classes found same) count live

  remove-put-IsValid :
      is_default k s.classes ≡ false
      → d.clients ≡ 0
      → IsValid (record { classes = remove k (put d s.classes); conns = xs })
  remove-put-IsValid other left =
      drop-IsValid s v k xs others (put d s.classes) (λ j. copies-put j d s.classes)
        (find-put_ne k c d s.classes found same) (λ j. is_default-put j d s.classes) other
        (sym count ∙ left)

-- `destroy_class` of a class that is there keeps the state valid: the default class stays, one with
-- clients stays and is dead, and any other goes.
destroy_class-IsValid :
    (k : ℕ) (c : Class) (s : State)
    → IsValid s
    → find k s.classes ≡ some c
    → (t : State) × (destroy_class k s ≡ some t)
      × IsValid t
      × (t.conns ≡ s.conns)
      × ((find k t.classes ≡ none)
          ⊎ ((find k t.classes ≡ some c) × (is_default k s.classes ≡ true))
          ⊎ ((find k t.classes ≡ some (record c { dead = true })) × (0 < c.clients)))
unfolding destroy_class destroy
destroy_class-IsValid k c s v found = elim (Bool-cases (is_default k s.classes)) [
  | inl default ↦ (s, rw (found, destroy_class, id, default), v, refl, inr (inl (found, default)))
  | inr other ↦ elim (Bool-cases (c.clients == 0)) [
    | inl gone ↦
        let x =
          drop-IsValid s v k s.conns (λ j q. refl) s.classes (λ j. refl) (λ j q. refl) (λ j. refl)
            other (sym (v.counted k c found) ∙ (==_iff c.clients 0).0 gone) in
        (
          record s { classes = remove k s.classes },
          rw (found, destroy_class, id, other, gone),
          x,
          refl,
          inl (find-remove_self k s v),
        )
    | inr some_left ↦
        let d : Class = record c { dead = true } in
        let p : 0 < c.clients = ground arith in
        (
          record s { classes = put d s.classes },
          rw (found, destroy_class, id, other, some_left),
          put-IsValid s v k s.conns (λ j q. refl) c d found id (v.counted k c found) (inr (inr p)),
          refl,
          inr (inr (find-put_self k c d s.classes found id, p)),
        )
  ]
]
  where
    id : c.id ≡ k
    id = find_id k s.classes c found

-- A connection that points to the class `c` at the address `k` leaves it.
module _ (n k : ℕ) (c : Class) (s : State) (v : IsValid s) (at : class_of n s.conns ≡ some k)
    (found : find k s.classes ≡ some c) where
  abbrev fewer : Class
  fewer = record c { clients = c.clients - 1 }

  left :
      (j : ℕ)
      → members j (set_class n none s.conns) + one_if (is_class j (some k)) ≡ members j s.conns
  left j =
      omega (arith, rw at at (members-set_class j n none s.conns (present_of_class n k s.conns at)))

  left_ne : (j : ℕ) → k ≢ j → members j (set_class n none s.conns) ≡ members j s.conns
  left_ne j q = let e = left j in let f = rw (==_ne k j q) at e in omega arith

  left_self : fewer.clients ≡ members k (set_class n none s.conns)
  left_self = let e = left k in let f = rw (==_refl k) at e in omega (arith, v.counted k c found)

  same : fewer.id ≡ k
  same = find_id k s.classes c found

  default_same :
      (b : Bool) → is_default k s.classes ≡ b → is_default fewer.id (put fewer s.classes) ≡ b
  default_same b e = is_default-put fewer.id fewer s.classes ∙ rw (← same) at e

  stays : (fewer.clients == 0 && c.dead) ≡ false → leave c s.classes ≡ put fewer s.classes
  unfolding leave
  stays e = rw e

  stays_default :
      (fewer.clients == 0 && c.dead) ≡ true
      → is_default k s.classes ≡ true
      → leave c s.classes ≡ put fewer s.classes
  unfolding leave destroy
  stays_default e d = rw (e, default_same true d)

  goes :
      (fewer.clients == 0 && c.dead) ≡ true
      → is_default k s.classes ≡ false
      → leave c s.classes ≡ remove k (put fewer s.classes)
  unfolding leave destroy
  goes e d =
      let z : (fewer.clients == 0) ≡ true = ground (arith, e) in
      rw (e, default_same false d, z) (ap (λ i. remove i (put fewer s.classes)) same)

  leave-IsValid :
      IsValid (record { classes = leave c s.classes; conns = set_class n none s.conns })
      × ((j : ℕ) → k ≢ j → find j (leave c s.classes) ≡ find j s.classes)
  leave-IsValid = elim (Bool-cases (fewer.clients == 0 && c.dead)) [
    | inr e ↦ rw (stays e) (
      put-IsValid s v k _ left_ne c fewer found same left_self (inr (ground (arith, e))),
      find-put_ne k c fewer s.classes found same,
    )
    | inl e ↦ elim (Bool-cases (is_default k s.classes)) [
      | inl default ↦ rw (stays_default e default) (
        put-IsValid s v k _ left_ne c fewer found same left_self (inl default),
        find-put_ne k c fewer s.classes found same,
      )
      | inr other ↦ rw (goes e other) (
        remove-put-IsValid s v k _ left_ne c fewer found same left_self other (ground (arith, e)),
        λ j q.
            find-remove_ne j k (put fewer s.classes) q
            ∙ find-put_ne k c fewer s.classes found same j q,
      )
    ]
  ]

-- A connection that points to a class leaves it: the state stays valid, the connection points to
-- none, and the other classes and connections stay as they were.
pub del_from_class-IsValid :
    (n k : ℕ) (s : State)
    → IsValid s
    → class_of n s.conns ≡ some k
    → (t : State) × (del_from_class n s ≡ some t)
      × IsValid t
      × (class_of n t.conns ≡ none)
      × (t.conns ≡ set_class n none s.conns)
      × ((j : ℕ) → k ≢ j → find j t.classes ≡ find j s.classes)
unfolding del_from_class
del_from_class-IsValid n k s v at = elim (Option-cases (find k s.classes)) [
  | inl absent ↦ absurd (v.pointing k (members_pos n k s.conns at) absent)
  | inr (c, found) ↦
      let (valid, others) = leave-IsValid n k c s v at found in
      (
        record { classes = leave c s.classes; conns = set_class n none s.conns },
        rw (at, del_from_class, found),
        valid,
        class_of-set_class n none s.conns (present_of_class n k s.conns at),
        refl,
        others,
      )
]
