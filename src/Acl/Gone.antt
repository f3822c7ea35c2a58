-- ===== src/Acl/Gone.antt =====
-- The end of an entry whose timer has run out.
use ithildin.Base.{
  ℕ, ◌<◌, ◌≡◌, sym, ap, ◌∙◌, subst, ◌≢◌, inl, inr, some, List, [], ◌∷◌, arith, ◌==◌, ==_iff, ==_ne,
  Bool-cases, Option-cases, All,
}
use ithildin.Acl.Entry.{Acl, State, list_of}
use ithildin.Acl.{unlink, destroy_acl}
use ithildin.Acl.Expire.{entry_at, or_else, entry, acl_timer_hook}
use ithildin.Acl.Order.{ids, occurs}
use ithildin.Acl.Valid.{
  list_of-slot, set_list-timers, Stands, IsValid, destroy_acl-IsValid, destroy_acl-occurs,
}
use ithildin.Timer.{timer_invalid}

pub entry_at-some :
    (P : Acl → Type 0) (id : ℕ) (ap : Acl) (acls : List Acl)
    → entry_at id acls ≡ some ap
    → All P acls
    → (ap.id ≡ id) × (0 < ids id acls) × P ap
unfolding entry_at ids
entry_at-some P id ap [] e a = cc
entry_at-some P id ap (ap2 ∷ acls) e a = elim (Bool-cases (ap2.id == id)) [
  | inl f ↦
      let g = rw f at e in
      let q : ap2 ≡ ap = cc in
      let i : ap2.id ≡ id = (==_iff _ _).0 f in rw (← q) (i, rw f (omega arith), a.0)
  | inr f ↦
      let g = rw f at e in let (i, m, p) = entry_at-some P id ap acls g a.1 in (i, omega arith, p)
]

-- The entry at an address stands in the list of its stage.
pub entry-some :
    (id : ℕ) (ap : Acl) (s : State)
    → IsValid s
    → entry id s ≡ some ap
    → (ap.id ≡ id) × (0 < ids id (list_of ap.stage s))
unfolding entry or_else list_of
entry-some id ap s v e = elim (Option-cases (entry_at id s.stage1_list)) [
  | inr (a, f) ↦
      let (i, m, p) = entry_at-some (Stands 1) id a s.stage1_list f v.staged1 in
      let q : a ≡ ap = let g = rw (f, or_else) at e in cc in
      rw (← q) (i, rw (list_of-slot a.stage 1 s p) m)
  | inl n ↦ elim (Option-cases (entry_at id s.stage2_list)) [
    | inr (a, f) ↦
        let (i, m, p) = entry_at-some (Stands 2) id a s.stage2_list f v.staged2 in
        let q : a ≡ ap = let g = rw (n, or_else, f) at e in cc in
        rw (← q) (i, rw (list_of-slot a.stage 2 s p) m)
    | inl k ↦
        let g : entry_at id s.stage3_list ≡ some ap = rw (n, or_else, k) at e in
        let (i, m, p) = entry_at-some (Stands 3) id ap s.stage3_list g v.staged3 in
        (i, rw (list_of-slot ap.stage 3 s p) m)
  ]
]

-- The timer of an entry of valid lists takes the entry out of its list and of the list of all,
-- which stay valid; the others and the timers stay.
pub acl_timer_hook-Removes :
    (id : ℕ) (ap : Acl) (s : State)
    → IsValid s
    → entry id s ≡ some ap
    → (t : State) × (acl_timer_hook id s ≡ some t)
      × IsValid t
      × (occurs id t.list ≡ 0)
      × ((k : ℕ) → id ≢ k → occurs k t.list ≡ occurs k s.list)
      × (t.timers ≡ s.timers)
unfolding acl_timer_hook destroy_acl
acl_timer_hook-Removes id ap s v e =
    let (same, there) = entry-some id ap s v e in
    let x : Acl = record ap { timer = timer_invalid } in
    let there' : 0 < ids x.id (list_of x.stage s) =
      subst (λ k. 0 < ids k (list_of ap.stage s)) (sym same) there in
    let gone = λ (k : ℕ). destroy_acl-occurs x s k v there' in
    (
      destroy_acl x s,
      rw (e, acl_timer_hook),
      destroy_acl-IsValid x s v there',
      (let g = gone id in
          let h = v.single id in let q = (==_iff x.id id).1 same in omega (arith, rw q at g)),
      λ k n.
          (let g = gone k in
            let q = ==_ne x.id k (λ f. n (sym same ∙ f)) in omega (arith, rw q at g)),
      set_list-timers ap.stage (unlink ap.id (list_of ap.stage s)) s,
    )
