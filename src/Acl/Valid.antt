-- ===== src/Acl/Valid.antt =====
-- The lists of the stages are in order and agree with the list of all entries.
use ithildin.Base.{
  ℕ, ◌+◌, ◌≤◌, ◌<◌, ◌≡◌, refl, ap, inl, inr, List, ◌∷◌, arith, ◌==◌, if◌then◌else◌, ==_iff,
  Bool-cases, All,
}
use ithildin.Timer
use ithildin.Acl.Entry.{Acl, State, list_of, set_list}
use ithildin.Acl.{unlink, unlist, destroy_acl, insert_acl, add_acl}
use ithildin.Acl.Order.{
  SortedFrom, one_if, ids, occurs, insert_acl-SortedFrom, unlink-SortedFrom, All-insert_acl,
  All-unlink, ids-insert_acl, ids-unlink, occurs-unlist,
}

-- The list in which an entry of a stage stands.
abbrev pub slot : ℕ → ℕ
slot stage = if stage == 1 then 1 else if stage == 2 then 2 else 3

abbrev pub Stands : ℕ → Acl → Type 0
Stands n ap = slot ap.stage ≡ n

pub record IsValid (s : State) : Type 0 where
  pub sorted1 : SortedFrom 0 s.stage1_list
  pub sorted2 : SortedFrom 0 s.stage2_list
  pub sorted3 : SortedFrom 0 s.stage3_list
  pub staged1 : All (Stands 1) s.stage1_list
  pub staged2 : All (Stands 2) s.stage2_list
  pub staged3 : All (Stands 3) s.stage3_list
  pub listed :
      (id : ℕ)
      → occurs id s.list ≡ ids id s.stage1_list + ids id s.stage2_list + ids id s.stage3_list
  pub single : (id : ℕ) → occurs id s.list ≤ 1

-- A write to the list of a stage, and to the list of all.
module _ (s : State) (v : IsValid s) (stage : ℕ) (acls : List Acl) (xs : List ℕ) (ts : Timer.State)
    (sorted : SortedFrom 0 acls) (staged : All (Stands (slot stage)) acls)
    (count : (id : ℕ) → occurs id xs + ids id (list_of stage s) ≡ occurs id s.list + ids id acls)
    (one : (id : ℕ) → occurs id xs ≤ 1) where
  abbrev pub written : State
  written = record (set_list stage acls s) { list = xs; timers = ts }

  pub written-IsValid : IsValid written
  unfolding list_of set_list
  written-IsValid = elim (Bool-cases (stage == 1)) [
    | inl e ↦
        let c = λ (id : ℕ). rw e at (count id) in
        let a = rw e at staged in
        rw e (record {
          sorted1 = sorted;
          sorted2 = v.sorted2;
          sorted3 = v.sorted3;
          staged1 = a;
          staged2 = v.staged2;
          staged3 = v.staged3;
          listed = λ id. omega (arith, c id, v.listed id);
          single = one;
        })
    | inr n ↦ elim (Bool-cases (stage == 2)) [
      | inl e ↦
          let c = λ (id : ℕ). rw (n, e) at (count id) in
          let a = rw (n, e) at staged in
          rw (n, e)
            (record {
              sorted1 = v.sorted1;
              sorted2 = sorted;
              sorted3 = v.sorted3;
              staged1 = v.staged1;
              staged2 = a;
              staged3 = v.staged3;
              listed = λ id. omega (arith, c id, v.listed id);
              single = one;
            })
      | inr e ↦
          let c = λ (id : ℕ). rw (n, e) at (count id) in
          let a = rw (n, e) at staged in
          rw (n, e)
            (record {
              sorted1 = v.sorted1;
              sorted2 = v.sorted2;
              sorted3 = sorted;
              staged1 = v.staged1;
              staged2 = v.staged2;
              staged3 = a;
              listed = λ id. omega (arith, c id, v.listed id);
              single = one;
            })
    ]
  ]

pub list_of-slot : (m n : ℕ) (s : State) → slot m ≡ slot n → list_of m s ≡ list_of n s
unfolding list_of
list_of-slot m n s e = ground arith

-- What is known of the list of a stage.
module _ (stage : ℕ) (s : State) (v : IsValid s) where
  pub list_of-SortedFrom : SortedFrom 0 (list_of stage s)
  unfolding list_of
  list_of-SortedFrom = elim (Bool-cases (stage == 1)) [
    | inl e ↦ rw e v.sorted1
    | inr n ↦ elim (Bool-cases (stage == 2)) [
      | inl e ↦ rw (n, e) v.sorted2
      | inr e ↦ rw (n, e) v.sorted3
    ]
  ]

  pub list_of-Stands : All (Stands (slot stage)) (list_of stage s)
  unfolding list_of
  list_of-Stands = elim (Bool-cases (stage == 1)) [
    | inl e ↦ rw e v.staged1
    | inr n ↦ elim (Bool-cases (stage == 2)) [
      | inl e ↦ rw (n, e) v.staged2
      | inr e ↦ rw (n, e) v.staged3
    ]
  ]

  pub ids-le-occurs : (id : ℕ) → ids id (list_of stage s) ≤ occurs id s.list
  unfolding list_of
  ids-le-occurs id = elim (Bool-cases (stage == 1)) [
    | inl e ↦ rw e (omega (arith, v.listed id))
    | inr n ↦ elim (Bool-cases (stage == 2)) [
      | inl e ↦ rw (n, e) (omega (arith, v.listed id))
      | inr e ↦ rw (n, e) (omega (arith, v.listed id))
    ]
  ]

pub set_list-list :
    (stage : ℕ) (acls : List Acl) (s : State) → (set_list stage acls s).list ≡ s.list
unfolding set_list
set_list-list stage acls s = ground arith

pub set_list-timers :
    (stage : ℕ) (acls : List Acl) (s : State) → (set_list stage acls s).timers ≡ s.timers
unfolding set_list
set_list-timers stage acls s = ground arith

pub list_of-set_list :
    (stage : ℕ) (acls : List Acl) (s : State) → list_of stage (set_list stage acls s) ≡ acls
unfolding list_of set_list
list_of-set_list stage acls s = ground arith

pub add_acl-IsValid :
    (ap : Acl) (s : State) → IsValid s → occurs ap.id s.list ≡ 0 → IsValid (add_acl ap s)
unfolding add_acl occurs
add_acl-IsValid ap s v fresh =
    let s' : State = set_list ap.stage (insert_acl ap (list_of ap.stage s)) s in
    let same : s'.list ≡ s.list = set_list-list ap.stage _ s in
    written-IsValid s v ap.stage (insert_acl ap (list_of ap.stage s)) (ap.id ∷ s'.list) s'.timers
      (insert_acl-SortedFrom 0 ap (list_of ap.stage s) (omega arith)
        (list_of-SortedFrom ap.stage s v))
      (All-insert_acl (Stands (slot ap.stage)) ap (list_of ap.stage s) refl
        (list_of-Stands ap.stage s v))
      (λ id. rw same (omega (arith, ids-insert_acl id ap (list_of ap.stage s))))
      (λ id. rw same (elim (Bool-cases (ap.id == id)) [
        | inl e ↦
            let q : ap.id ≡ id = (==_iff ap.id id).0 e in
            let f : occurs id s.list ≡ 0 = rw q at fresh in rw e (omega (arith, f))
        | inr e ↦ rw e (omega (arith, v.single id))
      ]))

pub destroy_acl-IsValid :
    (ap : Acl) (s : State)
    → IsValid s
    → 0 < ids ap.id (list_of ap.stage s)
    → IsValid (destroy_acl ap s)
unfolding destroy_acl
destroy_acl-IsValid ap s v there =
    let s' : State = set_list ap.stage (unlink ap.id (list_of ap.stage s)) s in
    let same : s'.list ≡ s.list = set_list-list ap.stage _ s in
    let gone =
      λ (id : ℕ). occurs-unlist id ap.id s.list (omega (arith, ids-le-occurs ap.stage s v ap.id)) in
    written-IsValid s v ap.stage (unlink ap.id (list_of ap.stage s)) (unlist ap.id s'.list) _
      (unlink-SortedFrom 0 ap.id (list_of ap.stage s) (list_of-SortedFrom ap.stage s v))
      (All-unlink (Stands (slot ap.stage)) ap.id (list_of ap.stage s) (list_of-Stands ap.stage s v))
      (λ id. rw same (omega (arith, gone id, ids-unlink id ap.id (list_of ap.stage s) there)))
      (λ id. rw same (omega (arith, gone id, v.single id)))

-- After its end the entry is in no list, and the others are where they were.
pub destroy_acl-occurs :
    (ap : Acl) (s : State) (id : ℕ)
    → IsValid s
    → 0 < ids ap.id (list_of ap.stage s)
    → occurs id (destroy_acl ap s).list + one_if (ap.id == id) ≡ occurs id s.list
unfolding destroy_acl
destroy_acl-occurs ap s id v there =
    rw (set_list-list ap.stage (unlink ap.id (list_of ap.stage s)) s)
      (occurs-unlist id ap.id s.list (omega (arith, ids-le-occurs ap.stage s v ap.id)))
