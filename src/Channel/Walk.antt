-- ===== src/Channel/Walk.antt =====
-- What the walks over the links of a list find.
use ithildin.Base.{
  ℕ, ◌+◌, ◌≤◌, ◌<◌, ◌≡◌, refl, ◌≢◌, inl, inr, Bool, true, false, Option, none, some, List, [], ◌∷◌,
  arith, ◌==◌, if◌then◌else◌, ==_iff, ==_refl, ==_ne, Bool-cases, Option-cases, length,
}
use ithildin.Channel.{Link, unlink, walk, update}

abbrev pub one_if : Bool → ℕ
one_if b = if b then 1 else 0

unfoldable pub count : ℕ → List ℕ → ℕ
count l [] = 0
count l (x ∷ xs) = one_if (x == l) + count l xs

pub count-unlink :
    (l k : ℕ) (xs : List ℕ) → 0 < count k xs → count l (unlink k xs) + one_if (k == l) ≡ count l xs
unfolding count unlink
count-unlink l k [] h = absurd (omega arith)
count-unlink l k (x ∷ xs) h = elim (Bool-cases (x == k)) [
  | inl e ↦ rw e (let q : x ≡ k = (==_iff x k).0 e in rw q (omega arith))
  | inr e ↦
      let h' = rw e at h in let i = count-unlink l k xs (omega arith) in rw e (ground (arith, i))
]

pub length-unlink : (k : ℕ) (xs : List ℕ) → 0 < count k xs → length (unlink k xs) + 1 ≡ length xs
unfolding count unlink
length-unlink k [] h = absurd (omega arith)
length-unlink k (x ∷ xs) h = elim (Bool-cases (x == k)) [
  | inl e ↦ rw e (omega arith)
  | inr e ↦
      let h' = rw e at h in let i = length-unlink k xs (omega arith) in rw e (omega (arith, i))
]

pub count-length : (k : ℕ) (xs : List ℕ) → count k xs ≤ length xs
unfolding count
count-length k [] = omega arith
count-length k (x ∷ xs) = ground (arith, count-length k xs)

pub update_self : {A : Type 0} (f : ℕ → A) (k : ℕ) (v : A) → update f k v k ≡ v
unfolding update
update_self f k v = rw (==_refl k)

pub update_ne : {A : Type 0} (f : ℕ → A) (k : ℕ) (v : A) (i : ℕ) → k ≢ i → update f k v i ≡ f i
unfolding update
update_ne f k v i h = rw (==_ne k i h)

-- The first link that passes the test, or none.
pub data Walks (test : Link → Bool) (links : ℕ → Option Link) (xs : List ℕ)
    : Option ℕ → Type 0 where
  hit :
      (l : ℕ) (link : Link)
      → 0 < count l xs
      → links l ≡ some link
      → test link ≡ true
      → Walks test links xs (some l)
  miss :
      ((l : ℕ) (link : Link) → 0 < count l xs → links l ≡ some link → test link ≡ false)
      → Walks test links xs none

module _ (test : Link → Bool) (links : ℕ → Option Link) where
  later :
      (x : ℕ) (link : Link) (xs : List ℕ) (o : Option ℕ)
      → links x ≡ some link
      → test link ≡ false
      → Walks test links xs o
      → Walks test links (x ∷ xs) o
  unfolding count
  later x link xs o e f (hit l link' c g t) = hit l link' (omega arith) g t
  later x link xs o e f (miss all) = miss (λ l link' c g. elim (Bool-cases (x == l)) [
    | inl q ↦
        let p : x ≡ l = (==_iff x l).0 q in
        let g' = rw (← p) at g in let same : link ≡ link' = cc in rw (← same) f
    | inr q ↦ all l link' (let c' = rw q at c in omega arith) g
  ])

  pub walk-Walks :
      (xs : List ℕ)
      → ((l : ℕ) → 0 < count l xs → links l ≢ none)
      → (o : Option ℕ) × (walk test links xs ≡ some o) × Walks test links xs o
  unfolding walk count
  walk-Walks [] live = (none, refl, miss (λ l link c. absurd (omega arith)))
  walk-Walks (x ∷ xs) live = elim (Option-cases (links x)) [
    | inl e ↦ absurd (live x (rw (==_refl x) (omega arith)) e)
    | inr (link, e) ↦ elim (Bool-cases (test link)) [
      | inl t ↦ (some x, rw (e, walk, t), hit x link (rw (==_refl x) (omega arith)) e t)
      | inr t ↦
          let (o, run, w) = walk-Walks xs (λ l c. live l (omega arith)) in
          (o, rw (e, walk, t) run, later x link xs o e t w)
    ]
  ]
