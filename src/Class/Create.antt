-- ===== src/Class/Create.antt =====
-- `create_class` keeps the state valid.
use ithildin.Base.{
  ℕ, ◌+◌, ◌≡◌, refl, sym, ap, ◌∙◌, inl, inr, true, false, none, some, [], ◌∷◌, arith, ltb, ◌==◌,
  if◌then◌else◌, ltb→lt, ==_iff, Bool-cases, take,
}
use ithildin.Text.Case.{Bytes}
use ithildin.Class.{Class, State, create_class, find, is_default}
use ithildin.Class.Counts.{one_if, members, copies, find_absent}
use ithildin.Class.Invariant.{IsValid}

module _ (id : ℕ) (name : Bytes) (s : State) where
  -- The class that is created.
  abbrev pub created : Class
  created = record { id = id; name = take 31 name; clients = 0; dead = false }

  find-create_class :
      (k : ℕ)
      → find id s.classes ≡ none
      → find k (create_class id name s).classes
        ≡ (if id == k then some created else find k s.classes)
  unfolding create_class find
  find-create_class k absent =
      elim s.classes
          as (λ cs.
            find id cs ≡ none
            → find k (elim cs [ [] ↦ created ∷ [] | d ∷ ds ↦ d ∷ created ∷ ds ])
              ≡ (if id == k then some created else find k cs)) [
                | [] ↦ λ e. refl
                | d ∷ ds ↦ λ e. ground arith
              ]
        absent

  copies-create_class :
      (k : ℕ) → copies k (create_class id name s).classes ≡ one_if (id == k) + copies k s.classes
  unfolding create_class copies
  copies-create_class k =
      elim s.classes
        as (λ cs.
          copies k (elim cs [ [] ↦ created ∷ [] | d ∷ ds ↦ d ∷ created ∷ ds ])
          ≡ one_if (id == k) + copies k cs) [ [] ↦ refl | d ∷ ds ↦ omega arith ]

  is_default-create_class :
      (k : ℕ) → is_default k s.classes ≡ true → is_default k (create_class id name s).classes ≡ true
  unfolding create_class
  is_default-create_class k =
      elim s.classes
        as (λ cs.
          is_default k cs ≡ true
          → is_default k (elim cs [ [] ↦ created ∷ [] | d ∷ ds ↦ d ∷ created ∷ ds ]) ≡ true) [
            | [] ↦ λ e. cc
            | d ∷ ds ↦ λ e. e
          ]

  empty : IsValid s → find id s.classes ≡ none → members id s.conns ≡ 0
  empty v absent = elim (Bool-cases (ltb 0 (members id s.conns))) [
    | inl more ↦ absurd (v.pointing id (ltb→lt 0 (members id s.conns) more) absent)
    | inr none_left ↦ ground arith
  ]

  -- A class created at an address that no class has is there afterwards, empty and alive; the other
  -- classes are found as before, and the state stays valid.
  create_class-IsValid :
      IsValid s
      → find id s.classes ≡ none
      → IsValid (create_class id name s)
        × ((k : ℕ)
            → find k (create_class id name s).classes
              ≡ (if id == k then some created else find k s.classes))
  unfolding create_class
  create_class-IsValid v absent = (
    record {
      single = λ k.
          ground (arith, copies-create_class k, v.single k, (find_absent id s.classes).0 absent);
      counted = λ k c h. elim (Bool-cases (id == k)) [
        | inl e ↦
            let q : id ≡ k = (==_iff id k).0 e in
            let f = rw e at (sym (find-create_class k absent) ∙ h) in
            let g : created ≡ c = cc in
            let n : members k s.conns ≡ 0 = rw q at (empty v absent) in
            sym (ap (λ d. d.clients) g) ∙ sym n
        | inr e ↦ v.counted k c (rw e at (sym (find-create_class k absent) ∙ h))
      ];
      pointing = λ k m. elim (Bool-cases (id == k)) [
        | inl e ↦ λ z. let f = rw e at (sym (find-create_class k absent) ∙ z) in cc
        | inr e ↦ λ q. v.pointing k m (rw e at (sym (find-create_class k absent) ∙ q))
      ];
      alive = λ k c h dead. elim (Bool-cases (id == k)) [
        | inl e ↦ absurd (
            let f = rw e at (sym (find-create_class k absent) ∙ h) in
            let g : created ≡ c = cc in let d : false ≡ true = ap (λ d. d.dead) g ∙ dead in cc)
        | inr e ↦ elim (v.alive k c (rw e at (sym (find-create_class k absent) ∙ h)) dead) [
          | inl default ↦ inl (is_default-create_class k default)
          | inr clients ↦ inr clients
        ]
      ];
    },
    λ k. find-create_class k absent,
  )
