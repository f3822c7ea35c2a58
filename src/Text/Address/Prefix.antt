-- ===== src/Text/Address/Prefix.antt =====
-- The mask of ipmatch, and the bits that are compared under it.
use native.Mathlib.Nat.{eq_of_mul-eq-mul_right, one-le-pow, div-one}
use ithildin.Base.{
  ℕ, zero, suc, ◌+◌, ◌-◌, ◌*◌, ◌/◌, ◌^◌, ◌≤◌, ◌<◌, bit_and, min, ◌≡◌, refl, sym, ap, ◌∙◌, inl, inr,
  Bool, true, ◌&&◌, [], ◌∷◌, ◌++◌, append_assoc, arith, leb, ◌==◌, if◌then◌else◌, ==_iff, ==_refl,
  ==_ne, Bool-cases, length, get_or, replicate, length-append, passes, passes-lt,
}
use ithildin.Text.Case.{Bytes}
use ithildin.Text.Address.{walk, same_bytes}

-- The first `n` bits of two addresses are the same.
unfoldable pub same_prefix : ℕ → Bytes → Bytes → Bool
same_prefix n [] ys = true
same_prefix n (x ∷ xs) [] = true
same_prefix n (x ∷ xs) (y ∷ ys) =
    let rest = same_prefix (n - 8) xs ys in
    if leb 8 n then x == y && rest else x / 2 ^ (8 - n) == y / 2 ^ (8 - n)

-- The mask that `walk` makes of `n` bits, a byte at a time.
mask_byte : ℕ → ℕ → ℕ
mask_byte n i = 256 - 2 ^ (8 - min 8 (n - 8 * i))

is_mask : ℕ → Bytes → Bool
is_mask n mask = passes (λ i. get_or mask i 0 == mask_byte n i) 16

walk-mask_byte :
    (n i : ℕ) → n ≤ 128 → i < 16 → get_or (walk n n (replicate 16 0)) i 0 ≡ mask_byte n i
unfolding passes walk is_mask mask_byte
walk-mask_byte n i h k =
    let good = passes-lt (λ n. is_mask n (walk n n (replicate 16 0))) 129 n refl (omega arith) in
    (==_iff (get_or (walk n n (replicate 16 0)) i 0) (mask_byte n i)).0
      (passes-lt (λ i. get_or (walk n n (replicate 16 0)) i 0 == mask_byte n i) 16 i good k)

-- A byte under a mask of its first 8 - k bits.
masked : (k c : ℕ) → k < 9 → c < 256 → bit_and c (256 - 2 ^ k) ≡ c / 2 ^ k * 2 ^ k
unfolding passes
masked k c h l =
    let good =
      passes-lt (λ k. passes (λ c. bit_and c (256 - 2 ^ k) == c / 2 ^ k * 2 ^ k) 256) 9 k refl h in
    (==_iff (bit_and c (256 - 2 ^ k)) (c / 2 ^ k * 2 ^ k)).0
      (passes-lt (λ c. bit_and c (256 - 2 ^ k) == c / 2 ^ k * 2 ^ k) 256 c good l)

same_masked :
    (k x y : ℕ)
    → k < 9
    → x < 256
    → y < 256
    → (bit_and x (256 - 2 ^ k) == bit_and y (256 - 2 ^ k)) ≡ (x / 2 ^ k == y / 2 ^ k)
same_masked k x y h lx ly =
    rw (masked k x h lx, masked k y h ly)
      (elim (Bool-cases (x / 2 ^ k == y / 2 ^ k)) [
        | inl e ↦
            let p : x / 2 ^ k ≡ y / 2 ^ k = (==_iff (x / 2 ^ k) (y / 2 ^ k)).0 e in
            rw (e, p) (==_refl (y / 2 ^ k * 2 ^ k))
        | inr e ↦ rw e (
            ==_ne (x / 2 ^ k * 2 ^ k) (y / 2 ^ k * 2 ^ k) (λ q. absurd (
              let p =
                eq_of_mul-eq-mul_right (2 ^ k) (one-le-pow k 2 (omega arith)) (x / 2 ^ k)
                  (y / 2 ^ k) q in
              ground arith)))
      ])

-- The mask of `n` bits.
abbrev pub mask_of : ℕ → Bytes
mask_of n = walk n n (replicate 16 0)

-- Behind the bits of the mask nothing is compared.
same_bytes_behind :
    (m n i : ℕ) (xs ys : Bytes)
    → n ≤ 128
    → n ≤ 8 * i
    → i + m ≤ 16
    → ((j : ℕ) → get_or xs j 0 < 256)
    → ((j : ℕ) → get_or ys j 0 < 256)
    → same_bytes m i (mask_of n) xs ys ≡ true
unfolding same_bytes mask_byte
same_bytes_behind zero n i xs ys h l k a b = refl
same_bytes_behind (suc m) n i xs ys h l k a b =
    let z : n - 8 * i ≡ 0 = omega arith in
    let e : get_or (mask_of n) i 0 ≡ 256 - 2 ^ 8 =
      walk-mask_byte n i h (omega arith) ∙ ap (λ d. 256 - 2 ^ (8 - min 8 d)) z in
    let x = get_or xs i 0 in
    let y = get_or ys i 0 in
    let small : (x / 2 ^ 8 == y / 2 ^ 8) ≡ true = ground (arith, a i, b i) in
    let same : (bit_and x (get_or (mask_of n) i 0) == bit_and y (get_or (mask_of n) i 0)) ≡ true =
      ap (λ c. bit_and x c == bit_and y c) e
      ∙ same_masked 8 x y (omega arith) (a i) (b i)
      ∙ small in
    rw (same_bytes, same) (same_bytes_behind m n (suc i) xs ys h (omega arith) (omega arith) a b)

get_or-append : (pre xs : Bytes) (x : ℕ) → get_or (pre ++ (x ∷ xs)) (length pre) 0 ≡ x
get_or-append [] xs x = refl
get_or-append (p ∷ pre) xs x = get_or-append pre xs x

at_place :
    (pre xs all : Bytes) (x i : ℕ) → all ≡ pre ++ (x ∷ xs) → length pre ≡ i → get_or all i 0 ≡ x
at_place pre xs all x i e p =
    ap (λ l. get_or l i 0) e
    ∙ ap (λ i. get_or (pre ++ (x ∷ xs)) i 0) (sym p)
    ∙ get_or-append pre xs x

pub same_bytes-same_prefix :
    (n i : ℕ) (pre pre' xs ys all all' : Bytes)
    → n ≤ 128
    → i + length xs ≤ 16
    → length xs ≡ length ys
    → (all ≡ pre ++ xs) × (length pre ≡ i)
    → (all' ≡ pre' ++ ys) × (length pre' ≡ i)
    → ((j : ℕ) → get_or all j 0 < 256)
    → ((j : ℕ) → get_or all' j 0 < 256)
    → same_bytes (length xs) i (mask_of n) all all' ≡ same_prefix (n - 8 * i) xs ys
unfolding same_bytes same_prefix mask_byte
same_bytes-same_prefix n i pre pre' [] ys all all' h k l p q a b = refl
same_bytes-same_prefix n i pre pre' (x ∷ xs) [] all all' h k l p q a b = absurd (omega arith)
same_bytes-same_prefix n i pre pre' (x ∷ xs) (y ∷ ys) all all' h k l p q a b =
    let ex = at_place pre xs all x i p.0 p.1 in
    let ey = at_place pre' ys all' y i q.0 q.1 in
    let lx : x < 256 = omega (arith, ex, a i) in
    let ly : y < 256 = omega (arith, ey, b i) in
    let d = n - 8 * i in
    let head : (c : ℕ)
        → c < 9
        → 8 - min 8 d ≡ c
        → (bit_and (get_or all i 0) (get_or (mask_of n) i 0)
            == bit_and (get_or all' i 0) (get_or (mask_of n) i 0))
          ≡ (x / 2 ^ c == y / 2 ^ c) =
      λ c small e.
        ap (λ m. bit_and (get_or all i 0) m == bit_and (get_or all' i 0) m)
          (walk-mask_byte n i h (omega arith) ∙ ap (λ d. 256 - 2 ^ d) e)
        ∙ ap (λ x. bit_and x (256 - 2 ^ c) == bit_and (get_or all' i 0) (256 - 2 ^ c)) ex
        ∙ ap (λ y. bit_and x (256 - 2 ^ c) == bit_and y (256 - 2 ^ c)) ey
        ∙ same_masked c x y small lx ly in
    elim (Bool-cases (leb 8 d)) [
      | inl e ↦
          let ih =
            same_bytes-same_prefix n (suc i) (pre ++ (x ∷ [])) (pre' ++ (y ∷ [])) xs ys all all' h
              (omega arith) (omega arith)
              (
                p.0 ∙ sym (append_assoc pre (x ∷ []) xs),
                length-append pre (x ∷ []) ∙ omega (arith, p.1),
              )
              (
                q.0 ∙ sym (append_assoc pre' (y ∷ []) ys),
                length-append pre' (y ∷ []) ∙ omega (arith, q.1),
              )
              a b in
          let less : n - 8 * suc i ≡ n - 8 * i - 8 = omega arith in
          let first : (x / 2 ^ 0 == y / 2 ^ 0) ≡ (x == y) = ground (arith, div-one x, div-one y) in
          let one = head 0 (omega arith) (ground arith) ∙ first in
          rw (same_bytes, one, e)
            (elim (Bool-cases (x == y)) [
              | inl f ↦ rw f (ih ∙ ap (λ n. same_prefix n xs ys) less)
              | inr f ↦ rw f
            ])
      | inr e ↦
          let one = head (8 - d) (omega arith) (ground arith) in
          let behind =
            same_bytes_behind (length xs) n (suc i) all all' h (ground arith) (omega arith) a b in
          rw (same_bytes, one, e, behind)
            (elim (Bool-cases (x / 2 ^ (8 - d) == y / 2 ^ (8 - d))) [ inl f ↦ rw f | inr f ↦ rw f ])
    ]
