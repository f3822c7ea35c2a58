-- ===== src/Acl/Created.antt =====
-- `create_acl` ends, keeps the lists valid, and puts the entry at the place of its rule.
use ithildin.Base.{
  ℕ, ◌<◌, ◌≡◌, refl, sym, ap, subst, ◌⊎◌, inl, inr, Bool, true, false, ◌&&◌, ◌||◌, not, Option,
  none, some, List, [], ◌∷◌, arith, ==_refl, Bool-cases, Option-cases, All, ℤ,
}
use ithildin.Text.Case.{Bytes}
use ithildin.Text.Compare.{strcasecmp}
use ithildin.IrcString.{CharMap}
use ithildin.Acl.Entry.{Access, Acl, State, list_of, set_list, user_host, given_rule}
use ithildin.Acl.Find.{agrees, and_then, has_access, has_rule, is_sought, find_from, find_acl, same}
use ithildin.Acl.{destroy_acl, insert_acl, new_acl, replace, add_acl, create_acl}
use ithildin.Acl.Order.{ids, occurs, Placed, insert_acl-Placed}
use ithildin.Acl.Valid.{
  slot, Stands, IsValid, list_of-slot, list_of-SortedFrom, list_of-Stands, add_acl-IsValid,
  destroy_acl-IsValid, destroy_acl-occurs,
}

is_sought_total :
    (acc : Option Access) (user host kind : Bytes) (rule : ℤ) (ap : Acl)
    → (b : Bool) × (is_sought acc user host kind rule none none ap ≡ some b)
unfolding is_sought and_then agrees
is_sought_total acc user host kind rule ap =
    elim (Bool-cases (not (has_access acc ap.access) || not (has_rule rule ap.rule))) [
      | inl e ↦ (false, rw e)
      | inr e ↦
          elim (Bool-cases (
            same (strcasecmp ap.user user)
            && same (strcasecmp ap.host host)
            && same (strcasecmp ap.kind kind))) [
              | inl f ↦ (true, rw (e, f))
              | inr f ↦ (false, rw (e, f))
            ]
    ]

find_from_total :
    (sought : Acl → Option Bool) (acls : List Acl)
    → ((ap : Acl) → (b : Bool) × (sought ap ≡ some b))
    → (o : Option Acl) × (find_from sought acls ≡ some o)
unfolding find_from
find_from_total sought [] total = (none, refl)
find_from_total sought (ap ∷ acls) total =
    let (b, e) = total ap in
    elim (Bool-cases b) [
      | inl f ↦ (some ap, rw (e, find_from, f))
      | inr f ↦ let (o, r) = find_from_total sought acls total in (o, rw (e, find_from, f) r)
    ]

find_from-some :
    (sought : Acl → Option Bool) (P : Acl → Type 0) (ap : Acl) (acls : List Acl)
    → find_from sought acls ≡ some (some ap)
    → All P acls
    → (0 < ids ap.id acls) × P ap
unfolding find_from ids
find_from-some sought P ap [] e a = cc
find_from-some sought P ap (ap2 ∷ acls) e a = elim (Option-cases (sought ap2)) [
  | inl f ↦ let g = rw (f, find_from) at e in cc
  | inr (b, f) ↦ elim (Bool-cases b) [
    | inl t ↦
        let g = rw (f, find_from, t) at e in
        let q : ap2 ≡ ap = cc in rw (← q) (rw (==_refl ap2.id) (omega arith), a.0)
    | inr t ↦
        let g = rw (f, find_from, t) at e in
        let (i, p) = find_from-some sought P ap acls g a.1 in (omega arith, p)
  ]
]

list_of-add_acl :
    (stage : ℕ) (ap : Acl) (s : State)
    → ap.stage ≡ stage
    → list_of stage (add_acl ap s) ≡ insert_acl ap (list_of stage s)
unfolding add_acl list_of set_list
list_of-add_acl stage ap s e = rw (← e) (ground arith)

-- What happens to the entry that is sought: there is none, or it has an info line and stays, or it
-- has gone.
abbrev pub Replaces : ℕ → Access → Bytes → Bytes → ℤ → State → State → Type 0
Replaces stage acc mask kind rule s t =
    let found = find_acl stage (some acc) mask kind rule none none s in
    ((found ≡ some none) × (t ≡ s))
    ⊎ ((ap : Acl) × (found ≡ some (some ap))
        × (((info : Bytes) × (ap.info ≡ some info) × (t ≡ s))
            ⊎ ((ap.info ≡ none)
                × (t ≡ destroy_acl ap s)
                × (0 < occurs ap.id s.list)
                × (occurs ap.id t.list ≡ 0))))

module _ (host_map : CharMap) (id stage : ℕ) (acc : Access) (mask kind : Bytes) (rule : ℤ)
    (s : State) (v : IsValid s) (fresh : occurs id s.list ≡ 0) where
  -- What `create_acl` gives, once the entry that is replaced has gone.
  pub record Creates (t u : State) : Type 0 where
    pub run : create_acl host_map id stage acc mask kind rule s ≡ some u
    pub replaced : Replaces stage acc mask kind rule s t
    pub valid : IsValid u
    pub placed :
        Placed (new_acl host_map id stage acc mask kind rule t) (list_of stage t) (list_of stage u)

  creates :
      (o : Option Acl) (t : State)
      → find_acl stage (some acc) mask kind rule none none s ≡ some o
      → replace o s ≡ t
      → Replaces stage acc mask kind rule s t
      → IsValid t
      → occurs id t.list ≡ 0
      → (u : State) × Creates t u
  unfolding create_acl new_acl
  creates o t found r how w f =
      let ap : Acl = new_acl host_map id stage acc mask kind rule t in
      (
        add_acl ap t,
        record {
          run = rw (found, create_acl, r);
          replaced = how;
          valid = add_acl-IsValid ap t w f;
          placed =
              subst (Placed ap (list_of stage t)) (sym (list_of-add_acl stage ap t refl))
                (insert_acl-Placed 0 ap (list_of stage t) (list_of-SortedFrom stage t w));
        },
      )

  found-Creates :
      (o : Option Acl)
      → find_acl stage (some acc) mask kind rule none none s ≡ some o
      → (t u : State) × Creates t u
  unfolding find_acl replace
  found-Creates none e = let (u, c) = creates none s e refl (inl (e, refl)) v fresh in (s, u, c)
  found-Creates (some ap) e =
      let (there, slots) =
        find_from-some _ (Stands (slot stage)) ap (list_of stage s) e (list_of-Stands stage s v) in
      let there' : 0 < ids ap.id (list_of ap.stage s) =
        rw (list_of-slot ap.stage stage s slots) there in
      elim (Option-cases ap.info) [
        | inl n ↦
            let g = rw (==_refl ap.id) at (destroy_acl-occurs ap s ap.id v there') in
            let was : 0 < occurs ap.id s.list = omega (arith, g) in
            let gone : occurs ap.id (destroy_acl ap s).list ≡ 0 =
              omega (arith, g, v.single ap.id) in
            let (u, c) =
              creates (some ap) (destroy_acl ap s) e (rw n) (inr (ap, e, inr (n, refl, was, gone)))
                (destroy_acl-IsValid ap s v there')
                (omega (arith, destroy_acl-occurs ap s id v there', fresh)) in
            (destroy_acl ap s, u, c)
        | inr (info, n) ↦
            let (u, c) = creates (some ap) s e (rw n) (inr (ap, e, inl (info, n, refl))) v fresh in
            (s, u, c)
      ]

  -- On valid lists `create_acl` of an entry at a new address ends and leaves them valid: an entry
  -- that `find_acl` finds for the same arguments goes if it has no info line, with a password or
  -- without, and stays if it has one, and no entry goes if none is found; the new entry stands in
  -- the list of its stage behind those with its rule or a smaller one and before those with a
  -- greater one, and the other entries of that list stay in their order.
  pub create_acl-Creates : (t u : State) × Creates t u
  unfolding find_acl
  create_acl-Creates =
      let (user, host) = user_host mask in
      let (o, e) =
        find_from_total (is_sought (some acc) user host kind (given_rule rule s) none none)
          (list_of stage s) (is_sought_total (some acc) user host kind (given_rule rule s)) in
      found-Creates o e
