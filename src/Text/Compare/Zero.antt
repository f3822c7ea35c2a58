-- ===== src/Text/Compare/Zero.antt =====
-- When a comparison returns 0, and what the counted comparisons compare.
use ithildin.Base.{
  ℕ, zero, suc, ◌<◌, ◌≡◌, refl, ◌≢◌, ◌↔◌, ◌⊎◌, inl, inr, some, [], ◌∷◌, map, arith, take, All, ℤ,
  pos, ◌-ℤ◌,
}
use ithildin.Text.Case.{Bytes, IsText, tolower, tolower-eq, ascii_lower}
use ithildin.Text.Compare.{schar, cmp_loop, ncmp_loop, strcasecmp, strncasecmp, strcmp, strncmp}

-- What the loops need of a key and a value on the bytes of which `P` holds: only the NUL has its
-- key, and the values of two bytes differ where the keys do.
pub record IsKey (P : ℕ → Type 0) (key : ℕ → ℕ) (value : ℕ → ℤ) : Type 0 where
  pub some_byte : (c : ℕ) → P c → 0 < c
  pub nul : (c : ℕ) → P c → key c ≢ key 0
  pub tell :
      (c d : ℕ) → (P c) ⊎ (c ≡ 0) → (P d) ⊎ (d ≡ 0) → value c -ℤ value d ≡ pos 0 → key c ≡ key d

module _ (P : ℕ → Type 0) (key : ℕ → ℕ) (value : ℕ → ℤ) (k : IsKey P key value) where
  cmp_loop-zero :
      (one two : Bytes)
      → All P one
      → All P two
      → cmp_loop key value one two ≡ some (pos 0)
      → map key one ≡ map key two
  unfolding cmp_loop
  cmp_loop-zero [] [] h1 h2 e = refl
  cmp_loop-zero [] (d ∷ two) h1 h2 e =
      absurd (let n = k.nul d h2.0 in let t = k.tell 0 d (inr refl) (inl h2.0) in ground arith)
  cmp_loop-zero (c ∷ one) [] h1 h2 e =
      absurd (let n = k.nul c h1.0 in let t = k.tell c 0 (inl h1.0) (inr refl) in ground arith)
  cmp_loop-zero (c ∷ one) (d ∷ two) h1 h2 e =
      let t = k.tell c d (inl h1.0) (inl h2.0) in
      ground (arith, t, k.some_byte c h1.0, cmp_loop-zero one two h1.1 h2.1)

  cmp_loop_same :
      (one two : Bytes)
      → All P one
      → All P two
      → map key one ≡ map key two
      → cmp_loop key value one two ≡ some (pos 0)
  unfolding cmp_loop
  cmp_loop_same [] [] h1 h2 e = ground arith
  cmp_loop_same [] (d ∷ two) h1 h2 e = cc
  cmp_loop_same (c ∷ one) [] h1 h2 e = cc
  cmp_loop_same (c ∷ one) (d ∷ two) h1 h2 e = ground (arith, cmp_loop_same one two h1.1 h2.1)

  pub cmp_loop-zero_iff :
      (one two : Bytes)
      → All P one
      → All P two
      → (cmp_loop key value one two ≡ some (pos 0)) ↔ (map key one ≡ map key two)
  cmp_loop-zero_iff one two h1 h2 = (cmp_loop-zero one two h1 h2, cmp_loop_same one two h1 h2)

  -- Comparing at most `n` bytes is comparing the first `n` bytes of each.
  pub ncmp_loop-take :
      (n : ℕ) (one two : Bytes)
      → All P one
      → All P two
      → ncmp_loop key value n one two ≡ cmp_loop key value (take n one) (take n two)
  unfolding cmp_loop ncmp_loop
  ncmp_loop-take zero one two h1 h2 = ground arith
  ncmp_loop-take (suc n) [] [] h1 h2 = refl
  ncmp_loop-take (suc n) [] (d ∷ two) h1 h2 = refl
  ncmp_loop-take (suc n) (c ∷ one) [] h1 h2 = let e = k.nul c h1.0 in ground arith
  ncmp_loop-take (suc n) (c ∷ one) (d ∷ two) h1 h2 =
      ground (arith, ncmp_loop-take n one two h1.1 h2.1)

-- A byte of a C string.
abbrev pub IsByte : ℕ → Type 0
IsByte c = (0 < c) × (c < 256)

pub IsText-All : (s : Bytes) → IsText s → All IsByte s
IsText-All [] h = tt
IsText-All (c ∷ s) h = ((h.0, h.1), IsText-All s h.2)

pub tolower-IsKey : IsKey IsByte tolower (λ c. pos (tolower c))
tolower-IsKey = record {
  some_byte = λ c h. h.0;
  nul = λ c h. ground (arith, tolower-eq c, tolower-eq 0);
  tell = λ c d h1 h2 e. ground arith;
}

pub schar-IsKey : IsKey IsByte (λ c. c) schar
unfolding schar
schar-IsKey = record {
  some_byte = λ c h. h.0;
  nul = λ c h. omega arith;
  tell = λ c d h1 h2 e. ground arith;
}

map-tolower : (s : Bytes) → IsText s → map tolower s ≡ map ascii_lower s
map-tolower [] h = refl
map-tolower (c ∷ s) h = rw (tolower-eq c h.1, map-tolower s h.2)

map-id : (s : Bytes) → map (λ c. c) s ≡ s
map-id [] = refl
map-id (c ∷ s) = rw (map-id s)

-- On C strings `strcasecmp` returns 0 exactly when the strings are equal up to ASCII case.
pub strcasecmp-zero :
    (one two : Bytes)
    → IsText one
    → IsText two
    → (strcasecmp one two ≡ some (pos 0)) ↔ (map ascii_lower one ≡ map ascii_lower two)
unfolding strcasecmp
strcasecmp-zero one two h1 h2 =
    rw (← map-tolower one h1, ← map-tolower two h2)
      (cmp_loop-zero_iff IsByte tolower (λ c. pos (tolower c)) tolower-IsKey one two
        (IsText-All one h1) (IsText-All two h2))

-- On C strings `strcmp` returns 0 exactly when they are equal.
pub strcmp-zero :
    (one two : Bytes) → IsText one → IsText two → (strcmp one two ≡ some (pos 0)) ↔ (one ≡ two)
unfolding strcmp
strcmp-zero one two h1 h2 =
    let e =
      cmp_loop-zero_iff IsByte (λ c. c) schar schar-IsKey one two (IsText-All one h1)
        (IsText-All two h2) in
    rw (map-id one, map-id two) at e

-- On C strings the counted comparisons return what the plain ones return on the strings cut to
-- the count.
strncmp-take :
    (one two : Bytes) (len : ℕ)
    → IsText one
    → IsText two
    → (strncmp one two len ≡ strcmp (take len one) (take len two))
      × (strncasecmp one two len ≡ strcasecmp (take len one) (take len two))
unfolding strncmp strcmp strncasecmp strcasecmp
strncmp-take one two len h1 h2 = (
  ncmp_loop-take IsByte _ _ schar-IsKey len one two (IsText-All one h1) (IsText-All two h2),
  ncmp_loop-take IsByte _ _ tolower-IsKey len one two (IsText-All one h1) (IsText-All two h2),
)
