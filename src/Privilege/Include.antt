-- ===== src/Privilege/Include.antt =====
-- The search of a setting through the included sets.
use ithildin.Base.{
  ℕ, zero, suc, ◌<◌, ◌≡◌, refl, sym, ◌∙◌, subst, inl, inr, Option, none, some, List, [], ◌∷◌, arith,
  Option-cases, get_elem?,
}
use ithildin.Text.Case.{Bytes}
use ithildin.Privilege.{through, privilege_find_setting}

module _ {A : Type 0} (entry : Bytes → A → Option Bytes) (includes : A → List Bytes)
    (find_set : Bytes → Option A) where
  -- The second list is the first, or included by it over any number of steps.
  pub data Reaches : A → A → Type 0 where
    here : (a : A) → Reaches a a
    there :
        (a b c : A) (i : ℕ) (ent : Bytes)
        → get_elem? (includes a) i ≡ some ent
        → find_set ent ≡ some b
        → Reaches b c
        → Reaches a c

  -- A setting is the entry of a list that is reached, and there is none only if no such list has
  -- the entry.
  abbrev pub Found : Bytes → A → Option Bytes → Type 0
  Found name clp none = (b : A) → Reaches clp b → entry name b ≡ none
  Found name clp (some v) = (b : A) × Reaches clp b × (entry name b ≡ some v)

  -- The same of the lists that a sequence of entries names.
  FoundIn : Bytes → List Bytes → Option Bytes → Type 0
  FoundIn name ents none =
      (i : ℕ) (ent : Bytes) (b : A)
      → get_elem? ents i ≡ some ent
      → find_set ent ≡ some b
      → Found name b none
  FoundIn name ents (some v) =
      (i : ℕ) × (ent : Bytes) × (b : A) × (get_elem? ents i ≡ some ent)
      × (find_set ent ≡ some b)
      × Found name b (some v)

  -- A bound of the steps that an include can take.
  abbrev pub IsRank : (A → ℕ) → Type 0
  IsRank rank =
      (a b : A) (i : ℕ) (ent : Bytes)
      → get_elem? (includes a) i ≡ some ent
      → find_set ent ≡ some b
      → rank b < rank a

  first_or_behind :
      (name ent : Bytes) (ents : List Bytes)
      → ((b : A) → find_set ent ≡ some b → Found name b none)
      → ((i : ℕ) (ent' : Bytes) (b : A)
          → get_elem? ents i ≡ some ent'
          → find_set ent' ≡ some b
          → Found name b none)
      → (i : ℕ) (ent' : Bytes) (b : A) → get_elem? (ent ∷ ents) i ≡ some ent'
      → find_set ent' ≡ some b
      → Found name b none
  first_or_behind name ent ents head f zero ent' b e g =
      let p : ent ≡ ent' = cc in head b (subst (λ x. find_set x ≡ some b) (sym p) g)
  first_or_behind name ent ents head f (suc i) ent' b e g = f i ent' b e g

  FoundIn-behind :
      (name ent : Bytes) (ents : List Bytes) (r : Option Bytes)
      → ((b : A) → find_set ent ≡ some b → Found name b none)
      → FoundIn name ents r
      → FoundIn name (ent ∷ ents) r
  unfolding FoundIn
  FoundIn-behind name ent ents none head f = first_or_behind name ent ents head f
  FoundIn-behind name ent ents (some v) head (i, ent', b, e, g, h) = (suc i, ent', b, e, g, h)

  through-FoundIn :
      (name : Bytes) (find : A → Option (Option Bytes)) (ents : List Bytes)
      → ((i : ℕ) (ent : Bytes) (b : A)
          → get_elem? ents i ≡ some ent
          → find_set ent ≡ some b
          → (r : Option Bytes) × (find b ≡ some r) × Found name b r)
      → (r : Option Bytes) × (through entry includes find_set find ents ≡ some r)
        × FoundIn name ents r
  unfolding through FoundIn
  through-FoundIn name find [] h = (none, refl, λ i ent b e g. cc)
  through-FoundIn name find (ent ∷ ents) h =
      let (r, run, f) = through-FoundIn name find ents (λ i ent' b e g. h (suc i) ent' b e g) in
      elim (Option-cases (find_set ent)) [
        | inl e ↦ (
          r,
          rw (through, e, run),
          FoundIn-behind name ent ents r (λ b g. absurd (let x : none ≡ some b = sym e ∙ g in cc))
              f,
        )
        | inr (b, e) ↦ let (r', run', f') = h 0 ent b refl e in join r r' b e run run' f f'
      ]
    where
      join :
          (r r' : Option Bytes) (b : A)
          → find_set ent ≡ some b
          → through entry includes find_set find ents ≡ some r
          → find b ≡ some r'
          → FoundIn name ents r
          → Found name b r'
          → (q : Option Bytes) × (through entry includes find_set find (ent ∷ ents) ≡ some q)
            × FoundIn name (ent ∷ ents) q
      join r none b e run run' f f' = (
        r,
        rw (through, e, run', run),
        FoundIn-behind name ent ents r
            (λ b' g. (let p : b ≡ b' = cc in subst (λ x. Found name x none) p f')) f,
      )
      join r (some v) b e run run' f f' = (some v, rw (through, e, run'), (0, ent, b, refl, e, f'))

  none_reached :
      {name : Bytes} {a : A} (b : A)
      → Reaches a b
      → entry name a ≡ none
      → FoundIn name (includes a) none
      → entry name b ≡ none
  unfolding FoundIn
  none_reached b (here a) e f = e
  none_reached b (there a b' c i ent p g q) e f = f i ent b' p g b q

  -- Where no set includes itself over any number of steps, which a rank of the lists bounds, the
  -- search of a setting ends within one round more than the rank. It answers an entry of a list
  -- that is reached by includes, or that no such list has the entry.
  pub privilege_find_setting-Found :
      (rank : A → ℕ) (fuel : ℕ) (name : Bytes) (clp : A)
      → IsRank rank
      → rank clp < fuel
      → (r : Option Bytes) × (privilege_find_setting entry includes find_set fuel name clp ≡ some r)
        × Found name clp r
  unfolding privilege_find_setting FoundIn
  privilege_find_setting-Found rank zero name clp v h = absurd (omega arith)
  privilege_find_setting-Found rank (suc fuel) name clp v h = elim (Option-cases (entry name clp)) [
    | inr (ent, e) ↦ (some ent, rw (privilege_find_setting, e), (clp, here clp, e))
    | inl e ↦
        let (r, run, f) =
          through-FoundIn name (privilege_find_setting entry includes find_set fuel name)
            (includes clp)
            (λ i ent b p g.
              privilege_find_setting-Found rank fuel name b v (omega (arith, v clp b i ent p g))) in
        (r, rw (privilege_find_setting, e) run, lift r e f)
  ]
    where
      lift :
          (r : Option Bytes)
          → entry name clp ≡ none
          → FoundIn name (includes clp) r
          → Found name clp r
      lift none e f = λ b q. none_reached b q e f
      lift (some v) e (i, ent, b, p, g, (c, q, x)) = (c, there clp b c i ent p g q, x)

  -- Where a set that lacks an entry includes itself first, the search never ends.
  pub privilege_find_setting-none :
      (fuel : ℕ) (name ent : Bytes) (ents : List Bytes) (clp : A)
      → entry name clp ≡ none
      → includes clp ≡ ent ∷ ents
      → find_set ent ≡ some clp
      → privilege_find_setting entry includes find_set fuel name clp ≡ none
  unfolding privilege_find_setting through
  privilege_find_setting-none zero name ent ents clp e i g = refl
  privilege_find_setting-none (suc fuel) name ent ents clp e i g = rw (
    privilege_find_setting,
    e,
    i,
    through,
    g,
    privilege_find_setting-none fuel name ent ents clp e i g,
  )
