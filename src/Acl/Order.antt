-- ===== src/Acl/Order.antt =====
-- The order of the entries in the list of a stage, and how often it has an address.
use ithildin.Base.{
  ℕ, ◌+◌, ◌≤◌, ◌<◌, ◌≡◌, refl, ap, inl, inr, Bool, List, [], ◌∷◌, ◌++◌, arith, ltb, ◌==◌,
  if◌then◌else◌, ltb→lt, ==_iff, Bool-cases, All,
}
use ithildin.Acl.Entry.{Acl}
use ithildin.Acl.{insert_acl, unlink, unlist}

abbrev pub SortedFrom : ℕ → List Acl → Type 0
SortedFrom rule [] = Unit
SortedFrom rule (ap ∷ acls) = (rule ≤ ap.rule) × SortedFrom ap.rule acls

abbrev pub one_if : Bool → ℕ
one_if b = if b then 1 else 0

-- How often an address is that of an entry, and how often it stands in the list of all.
unfoldable pub ids : ℕ → List Acl → ℕ
ids id [] = 0
ids id (ap ∷ acls) = one_if (ap.id == id) + ids id acls

unfoldable pub occurs : ℕ → List ℕ → ℕ
occurs id [] = 0
occurs id (x ∷ xs) = one_if (x == id) + occurs id xs

pub SortedFrom-weaken :
    (low high : ℕ) (acls : List Acl) → low ≤ high → SortedFrom high acls → SortedFrom low acls
SortedFrom-weaken low high [] h s = tt
SortedFrom-weaken low high (ap ∷ acls) h s = (omega arith, s.1)

pub insert_acl-SortedFrom :
    (low : ℕ) (ap : Acl) (acls : List Acl)
    → low ≤ ap.rule
    → SortedFrom low acls
    → SortedFrom low (insert_acl ap acls)
unfolding insert_acl
insert_acl-SortedFrom low ap [] h s = (h, tt)
insert_acl-SortedFrom low ap (ap2 ∷ acls) h s = elim (Bool-cases (ltb ap.rule ap2.rule)) [
  | inl less ↦ rw less (h, (ground (arith, less), s.1))
  | inr more ↦ rw more (s.0, insert_acl-SortedFrom ap2.rule ap acls (ground (arith, more)) s.1)
]

pub unlink-SortedFrom :
    (low id : ℕ) (acls : List Acl) → SortedFrom low acls → SortedFrom low (unlink id acls)
unfolding unlink
unlink-SortedFrom low id [] s = tt
unlink-SortedFrom low id (ap ∷ acls) s = elim (Bool-cases (ap.id == id)) [
  | inl e ↦ rw e (SortedFrom-weaken low ap.rule acls s.0 s.1)
  | inr e ↦ rw e (s.0, unlink-SortedFrom ap.rule id acls s.1)
]

pub All-insert_acl :
    (P : Acl → Type 0) (ap : Acl) (acls : List Acl) → P ap → All P acls → All P (insert_acl ap acls)
unfolding insert_acl
All-insert_acl P ap [] p a = (p, tt)
All-insert_acl P ap (ap2 ∷ acls) p a = elim (Bool-cases (ltb ap.rule ap2.rule)) [
  | inl e ↦ rw e (p, a)
  | inr e ↦ rw e (a.0, All-insert_acl P ap acls p a.1)
]

pub All-unlink : (P : Acl → Type 0) (id : ℕ) (acls : List Acl) → All P acls → All P (unlink id acls)
unfolding unlink
All-unlink P id [] a = tt
All-unlink P id (ap ∷ acls) a = elim (Bool-cases (ap.id == id)) [
  | inl e ↦ rw e a.1
  | inr e ↦ rw e (a.0, All-unlink P id acls a.1)
]

pub ids-insert_acl :
    (id : ℕ) (ap : Acl) (acls : List Acl)
    → ids id (insert_acl ap acls) ≡ one_if (ap.id == id) + ids id acls
unfolding ids insert_acl
ids-insert_acl id ap [] = refl
ids-insert_acl id ap (ap2 ∷ acls) = ground (arith, ids-insert_acl id ap acls)

pub ids-unlink :
    (id k : ℕ) (acls : List Acl)
    → 0 < ids k acls
    → ids id (unlink k acls) + one_if (k == id) ≡ ids id acls
unfolding ids unlink
ids-unlink id k [] h = absurd (omega arith)
ids-unlink id k (ap ∷ acls) h = elim (Bool-cases (ap.id == k)) [
  | inl e ↦ rw e (let q : ap.id ≡ k = (==_iff ap.id k).0 e in rw q (omega arith))
  | inr e ↦
      let h' = rw e at h in let i = ids-unlink id k acls (omega arith) in rw e (ground (arith, i))
]

pub occurs-unlist :
    (id k : ℕ) (xs : List ℕ)
    → 0 < occurs k xs
    → occurs id (unlist k xs) + one_if (k == id) ≡ occurs id xs
unfolding occurs unlist
occurs-unlist id k [] h = absurd (omega arith)
occurs-unlist id k (x ∷ xs) h = elim (Bool-cases (x == k)) [
  | inl e ↦ rw e (let q : x ≡ k = (==_iff x k).0 e in rw q (omega arith))
  | inr e ↦
      let h' = rw e at h in let i = occurs-unlist id k xs (omega arith) in rw e (ground (arith, i))
]

-- The place of an entry in the list: behind those with its rule or a smaller one, and before those
-- with a greater one.
pub record Placed (ap : Acl) (acls acls' : List Acl) : Type 0 where
  pub before : List Acl
  pub after : List Acl
  pub old : acls ≡ before ++ after
  pub new : acls' ≡ before ++ ap ∷ after
  pub low : All (λ (ap2 : Acl). ap2.rule ≤ ap.rule) before
  pub high : All (λ (ap2 : Acl). ap.rule < ap2.rule) after

All-above :
    (low high : ℕ) (acls : List Acl)
    → low < high
    → SortedFrom high acls
    → All (λ (ap : Acl). low < ap.rule) acls
All-above low high [] h s = tt
All-above low high (ap ∷ acls) h s = (omega arith, All-above low ap.rule acls (omega arith) s.1)

pub insert_acl-Placed :
    (low : ℕ) (entry : Acl) (acls : List Acl)
    → SortedFrom low acls
    → Placed entry acls (insert_acl entry acls)
unfolding insert_acl
insert_acl-Placed low entry [] s = record {
  before = [];
  after = [];
  old = refl;
  new = refl;
  low = tt;
  high = tt;
}
insert_acl-Placed low entry (ap2 ∷ acls) s = elim (Bool-cases (ltb entry.rule ap2.rule)) [
  | inl e ↦ record {
    before = [];
    after = ap2 ∷ acls;
    old = refl;
    new = rw e;
    low = tt;
    high = (ltb→lt _ _ e, All-above entry.rule ap2.rule acls (ltb→lt _ _ e) s.1);
  }
  | inr e ↦
      let p = insert_acl-Placed ap2.rule entry acls s.1 in
      record {
        before = ap2 ∷ p.before;
        after = p.after;
        old = ap (λ l. ap2 ∷ l) p.old;
        new = rw e (ap (λ l. ap2 ∷ l) p.new);
        low = (ground (arith, e), p.low);
        high = p.high;
      }
]
