-- ===== src/Timer/Turns.antt =====
-- Successive references differ, and more of them than there are timers are not all in use.
use ithildin.Base.{
  ℕ, zero, suc, ◌+◌, ◌%◌, ◌≤◌, ◌<◌, ◌≡◌, refl, ap, ◌≢◌, inl, inr, List, [], ◌∷◌, arith, ◌==◌,
  if◌then◌else◌, ==_iff, Bool-cases, length, All,
}
use ithildin.Timer.{TimerEvent, u64}
use ithildin.Timer.Order.{refs}

-- The references of `n` successive turns of the counter.
abbrev pub turns : ℕ → ℕ → List ℕ
turns zero r = []
turns (suc n) r = r ∷ turns n ((r + 1) % u64)

-- The other numbers of a list.
without : ℕ → List ℕ → List ℕ
without r [] = []
without r (d ∷ ds) = if d == r then without r ds else d ∷ without r ds

abbrev pub Apart : List ℕ → Type 0
Apart [] = Unit
Apart (d ∷ ds) = All (λ e. e ≢ d) ds × Apart ds

abbrev pub AllUsed : List TimerEvent → List ℕ → Type 0
AllUsed ts = All (λ d. 0 < refs d ts)

All-without {κ} : (P : ℕ → Type κ) (r : ℕ) (ds : List ℕ) → All P ds → All P (without r ds)
unfolding without
All-without P r [] h = tt
All-without P r (d ∷ ds) h = elim (Bool-cases (d == r)) [
  | inl e ↦ rw e (All-without P r ds h.1)
  | inr e ↦ rw e (h.0, All-without P r ds h.1)
]

Apart-without : (r : ℕ) (ds : List ℕ) → Apart ds → Apart (without r ds)
unfolding without
Apart-without r [] h = tt
Apart-without r (d ∷ ds) h = elim (Bool-cases (d == r)) [
  | inl e ↦ rw e (Apart-without r ds h.1)
  | inr e ↦ rw e (All-without (λ e. e ≢ d) r ds h.0, Apart-without r ds h.1)
]

without_absent : (r : ℕ) (ds : List ℕ) → All (λ e. e ≢ r) ds → length (without r ds) ≡ length ds
unfolding without
without_absent r [] h = refl
without_absent r (d ∷ ds) h = ground (arith, without_absent r ds)

length-without : (r : ℕ) (ds : List ℕ) → Apart ds → length ds ≤ length (without r ds) + 1
unfolding without
length-without r [] h = omega arith
length-without r (d ∷ ds) h = elim (Bool-cases (d == r)) [
  | inl e ↦
      rw e (let k : d ≡ r = (==_iff d r).0 e in omega (arith, without_absent r ds (rw k at h.0)))
  | inr e ↦ rw e (omega (arith, length-without r ds h.1))
]

AllUsed-without :
    (t : TimerEvent) (ts : List TimerEvent) (ds : List ℕ)
    → AllUsed (t ∷ ts) ds
    → AllUsed ts (without t.ref ds)
unfolding without refs
AllUsed-without t ts [] h = tt
AllUsed-without t ts (d ∷ ds) h = elim (Bool-cases (d == t.ref)) [
  | inl e ↦ rw e (AllUsed-without t ts ds h.1)
  | inr e ↦ rw e (ground (arith, h.0), AllUsed-without t ts ds h.1)
]

-- Different references in use are at most as many as the timers.
pub used-le-length :
    (ts : List TimerEvent) (ds : List ℕ) → Apart ds → AllUsed ts ds → length ds ≤ length ts
unfolding refs
used-le-length [] [] a h = omega arith
used-le-length [] (d ∷ ds) a h = absurd (omega arith)
used-le-length (t ∷ ts) ds a h = omega (
  arith,
  length-without t.ref ds a,
  used-le-length ts (without t.ref ds) (Apart-without t.ref ds a) (AllUsed-without t ts ds h),
)

pub length-turns : (n r : ℕ) → length (turns n r) ≡ n
length-turns zero r = refl
length-turns (suc n) r = ap suc (length-turns n ((r + 1) % u64))

turns_other :
    (n j d r : ℕ) → d < u64 → 0 < j → j + n ≤ u64 → r ≡ (d + j) % u64 → All (λ e. e ≢ d) (turns n r)
turns_other zero j d r h p k e = tt
turns_other (suc n) j d r h p k e = (
  omega arith,
  turns_other n (j + 1) d ((r + 1) % u64) h (omega arith) (omega arith) (omega arith),
)

pub turns-Apart : (n r : ℕ) → n ≤ u64 → r < u64 → Apart (turns n r)
turns-Apart zero r h k = tt
turns-Apart (suc n) r h k = (
  turns_other n 1 r ((r + 1) % u64) k (omega arith) (omega arith) refl,
  turns-Apart n ((r + 1) % u64) (omega arith) (omega arith),
)
