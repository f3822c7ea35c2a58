-- ===== src/Acl/Written.antt =====
-- A write to an entry that keeps its address, stage and rule keeps the lists valid.
use ithildin.Base.{
  ℕ, ◌+◌, ◌≤◌, ◌≡◌, refl, sym, ap, ◌∙◌, subst, inl, inr, none, some, List, [], ◌∷◌, arith, ◌==◌,
  ==_iff, ==_refl, Bool-cases, Option-cases, All,
}
use ithildin.Acl.Entry.{Acl, State}
use ithildin.Acl.Expire.{entry_at, write, or_else, entry, write_entry}
use ithildin.Acl.Order.{SortedFrom, ids}
use ithildin.Acl.Gone.{entry_at-some}
use ithildin.Acl.Valid.{slot, Stands, IsValid}

write-absent : (ap : Acl) (acls : List Acl) → entry_at ap.id acls ≡ none → write ap acls ≡ acls
unfolding write entry_at
write-absent ap [] e = refl
write-absent ap (ap2 ∷ acls) e = elim (Bool-cases (ap2.id == ap.id)) [
  | inl q ↦ let f = rw q at e in absurd (cc)
  | inr q ↦ rw q (cons_tail ap2 (write-absent ap acls (rw q at e)))
]
  where
    cons_tail : (x : Acl) {xs ys : List Acl} → xs ≡ ys → x ∷ xs ≡ x ∷ ys
    cons_tail x p i = x ∷ p i

-- What a write to an entry that is there keeps.
pub record Keeps (new : Acl) (low n : ℕ) (acls : List Acl) : Type 0 where
  pub sorted : SortedFrom low (write new acls)
  pub staged : All (Stands n) (write new acls)
  pub same_ids : (id : ℕ) → ids id (write new acls) ≡ ids id acls
  pub found : entry_at new.id (write new acls) ≡ some new

write-Keeps :
    (old new : Acl) (low n : ℕ) (acls : List Acl)
    → new.rule ≡ old.rule
    → new.stage ≡ old.stage
    → entry_at new.id acls ≡ some old
    → SortedFrom low acls
    → All (Stands n) acls
    → Keeps new low n acls
unfolding write entry_at ids
write-Keeps old new low n [] r g e s a = absurd (cc)
write-Keeps old new low n (x ∷ acls) r g e s a = elim (Bool-cases (x.id == new.id)) [
  | inl q ↦
      let f = rw q at e in
      let same : x ≡ old = cc in
      let rule : new.rule ≡ x.rule = r ∙ sym (ap_rule same) in
      let i : x.id ≡ new.id = (==_iff x.id new.id).0 q in
      record {
        sorted =
            rw q
              (subst (λ k. low ≤ k) (sym rule) s.0, subst (λ k. SortedFrom k acls) (sym rule) s.1);
        staged = rw q (slot_of (g ∙ sym (ap_stage same)) ∙ a.0, a.1);
        same_ids = λ id. rw (q, i) refl;
        found = rw (q, ==_refl new.id) refl;
      }
  | inr q ↦
      let k = write-Keeps old new x.rule n acls r g (rw q at e) s.1 a.1 in
      record {
        sorted = rw q (s.0, k.sorted);
        staged = rw q (a.0, k.staged);
        same_ids = λ id. rw q (omega (arith, k.same_ids id));
        found = rw q (rw q k.found);
      }
]
  where
    ap_rule : {x y : Acl} → x ≡ y → x.rule ≡ y.rule
    ap_rule p i = (p i).rule

    ap_stage : {x y : Acl} → x ≡ y → x.stage ≡ y.stage
    ap_stage p i = (p i).stage

    slot_of : {x y : ℕ} → x ≡ y → slot x ≡ slot y
    slot_of p i = slot (p i)

ids-absent : (id : ℕ) (acls : List Acl) → ids id acls ≡ 0 → entry_at id acls ≡ none
unfolding ids entry_at
ids-absent id [] e = refl
ids-absent id (ap ∷ acls) e = elim (Bool-cases (ap.id == id)) [
  | inl q ↦ let f = rw q at e in absurd (omega arith)
  | inr q ↦ let f = rw q at e in rw q (ids-absent id acls (omega arith))
]

module _ (old new : Acl) (s : State) (v : IsValid s) (same_rule : new.rule ≡ old.rule)
    (same_stage : new.stage ≡ old.stage) where
  -- Where one list has the entry, another has none.
  alone :
      (xs ys : List Acl)
      → ids new.id xs + ids new.id ys ≤ 1
      → entry_at new.id xs ≡ some old
      → (entry_at new.id ys ≡ none) × (write new ys ≡ ys)
  alone xs ys h e =
      let (i, m, p) = entry_at-some (λ a. Unit {0}) new.id old xs e (all_unit xs) in
      let n = ids-absent new.id ys (omega arith) in (n, write-absent new ys n)
    where
      all_unit : (l : List Acl) → All (λ (a : Acl). Unit {0}) l
      all_unit [] = tt
      all_unit (a ∷ l) = (tt, all_unit l)

  at_most : ids new.id s.stage1_list + ids new.id s.stage2_list + ids new.id s.stage3_list ≤ 1
  at_most = omega (arith, v.listed new.id, v.single new.id)

  -- A write to the list of one stage keeps the lists valid.
  valid1 :
      Keeps new 0 1 s.stage1_list → IsValid (record s { stage1_list = write new s.stage1_list })
  valid1 k = record {
    sorted1 = k.sorted;
    sorted2 = v.sorted2;
    sorted3 = v.sorted3;
    staged1 = k.staged;
    staged2 = v.staged2;
    staged3 = v.staged3;
    listed = λ id. omega (arith, v.listed id, k.same_ids id);
    single = v.single;
  }

  valid2 :
      Keeps new 0 2 s.stage2_list → IsValid (record s { stage2_list = write new s.stage2_list })
  valid2 k = record {
    sorted1 = v.sorted1;
    sorted2 = k.sorted;
    sorted3 = v.sorted3;
    staged1 = v.staged1;
    staged2 = k.staged;
    staged3 = v.staged3;
    listed = λ id. omega (arith, v.listed id, k.same_ids id);
    single = v.single;
  }

  valid3 :
      Keeps new 0 3 s.stage3_list → IsValid (record s { stage3_list = write new s.stage3_list })
  valid3 k = record {
    sorted1 = v.sorted1;
    sorted2 = v.sorted2;
    sorted3 = k.sorted;
    staged1 = v.staged1;
    staged2 = v.staged2;
    staged3 = k.staged;
    listed = λ id. omega (arith, v.listed id, k.same_ids id);
    single = v.single;
  }

  pub write_entry-IsValid :
      entry new.id s ≡ some old
      → IsValid (write_entry new s) × (entry new.id (write_entry new s) ≡ some new)
  unfolding entry write_entry or_else
  write_entry-IsValid e = elim (Option-cases (entry_at new.id s.stage1_list)) [
    | inr (a, f) ↦
        let q : a ≡ old = let g = rw (f, or_else) at e in cc in
        let f' : entry_at new.id s.stage1_list ≡ some old = f ∙ some_eq q in
        let k = write-Keeps old new 0 1 s.stage1_list same_rule same_stage f' v.sorted1 v.staged1 in
        let (n2, w2) = alone s.stage1_list s.stage2_list (omega (arith, at_most)) f' in
        let (n3, w3) = alone s.stage1_list s.stage3_list (omega (arith, at_most)) f' in
        (rw (w2, w3) (valid1 k), rw (k.found, or_else))
    | inl n ↦
        let w1 = write-absent new s.stage1_list n in
        elim (Option-cases (entry_at new.id s.stage2_list)) [
          | inr (a, f) ↦
              let q : a ≡ old = let g = rw (n, or_else, f) at e in cc in
              let f' : entry_at new.id s.stage2_list ≡ some old = f ∙ some_eq q in
              let k =
                write-Keeps old new 0 2 s.stage2_list same_rule same_stage f' v.sorted2 v.staged2 in
              let (n3, w3) = alone s.stage2_list s.stage3_list (omega (arith, at_most)) f' in
              (rw (w1, w3) (valid2 k), rw (w1, n, or_else, k.found, or_else))
          | inl n2 ↦
              let w2 = write-absent new s.stage2_list n2 in
              let f' : entry_at new.id s.stage3_list ≡ some old = rw (n, or_else, n2) at e in
              let k =
                write-Keeps old new 0 3 s.stage3_list same_rule same_stage f' v.sorted3 v.staged3 in
              (rw (w1, w2) (valid3 k), rw (w1, n, or_else, w2, n2, or_else) k.found)
        ]
  ]
    where
      some_eq : {x y : Acl} → x ≡ y → some x ≡ some y
      some_eq p i = some (p i)
