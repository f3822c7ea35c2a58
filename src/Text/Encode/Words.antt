-- ===== src/Text/Encode/Words.antt =====
-- Numbers by their digits, and the two masks of the code.
use Prim.Native.Nat.{digits, differ, bit_and-bitwise, bit_xor-bitwise}
use native.Mathlib.Nat.{
  pow-suc, zero-mod, mod-one, mod-lt, mod-eq_of_lt, div-add-mod, add-mul-mod_self_left,
  mul-mod_left, mul_right_comm, mul_assoc, one-le-pow,
}
use ithildin.Base.{
  ℕ, zero, suc, ◌+◌, ◌-◌, ◌*◌, ◌/◌, ◌%◌, ◌^◌, ◌≤◌, ◌<◌, bit_and, bit_xor, min, ◌≡◌, refl, sym, ap,
  ◌∙◌, List, [], ◌∷◌, ◌++◌, arith,
}

-- The number `v` with more digits written behind it.
unfoldable pub val : ℕ → List ℕ → ℕ → ℕ
val base [] v = v
val base (x ∷ xs) v = val base xs (v * base + x)

pub val-append :
    (base : ℕ) (xs ys : List ℕ) (v : ℕ) → val base (xs ++ ys) v ≡ val base ys (val base xs v)
unfolding val
val-append base [] ys v = refl
val-append base (x ∷ xs) ys v = val-append base xs ys (v * base + x)

pub power-pos : (k : ℕ) → 0 < 2 ^ k
power-pos k = one-le-pow k 2 (omega arith)

half_mod : (p a : ℕ) → 0 < p → a % (p * 2) ≡ a / 2 % p * 2 + a % 2
half_mod p a h =
    let t = a / 2 / p in
    let r = a / 2 % p in
    let e = div-add-mod (a / 2) p in
    let l : r < p = mod-lt (a / 2) h in
    let n = mul_right_comm p 2 t in
    let whole : a ≡ (r * 2 + a % 2) + p * 2 * t = omega (arith, e, n) in
    ap (λ x. x % (p * 2)) whole
    ∙ add-mul-mod_self_left (r * 2 + a % 2) (p * 2) t
    ∙ mod-eq_of_lt (omega (arith, l))

digits_zero : (n a : ℕ) → digits (λ r. zero) min n a 0 ≡ 0
digits_zero zero a = refl
digits_zero (suc n) zero = refl
digits_zero (suc n) (suc a) = omega (arith, digits_zero n (suc a / 2))

-- `&` with 2 ^ k - 1 keeps the low k digits.
digits_mask : (n a k : ℕ) → a ≤ n → digits (λ r. zero) min n a (2 ^ k - 1) ≡ a % 2 ^ k
digits_mask zero a k h =
    let z : a ≡ 0 = omega arith in sym (ap (λ a. a % 2 ^ k) z ∙ zero-mod (2 ^ k))
digits_mask (suc n) zero k h = sym (zero-mod (2 ^ k))
digits_mask (suc n) (suc a) zero h = omega (arith, digits_zero n (suc a / 2))
digits_mask (suc n) (suc a) (suc k) h =
    let ih = digits_mask n (suc a / 2) k (omega arith) in
    let p = power-pos k in
    let e = pow-suc 2 k in
    let half : (2 ^ suc k - 1) / 2 ≡ 2 ^ k - 1 = omega (arith, e, p) in
    let odd : (2 ^ suc k - 1) % 2 ≡ 1 = omega (arith, e, p) in
    rw (half, odd, ih, e, half_mod (2 ^ k) (suc a) p) (omega arith)

pub bit_and-mask : (a k : ℕ) → bit_and a (2 ^ k - 1) ≡ a % 2 ^ k
bit_and-mask a k = bit_and-bitwise a (2 ^ k - 1) ∙ digits_mask a a k (omega arith)

differ_zero : (x : ℕ) → differ x 0 ≡ x
differ_zero zero = refl
differ_zero (suc x) = refl

-- `^` with a number whose low k digits are 0 keeps the low k digits.
digits_high : (n a y k : ℕ) → a ≤ n → digits (λ b. b) differ n a (y * 2 ^ k) % 2 ^ k ≡ a % 2 ^ k
digits_high zero a y k h =
    let z : a ≡ 0 = omega arith in
    mul-mod_left y (2 ^ k) ∙ sym (ap (λ a. a % 2 ^ k) z ∙ zero-mod (2 ^ k))
digits_high (suc n) zero y k h = mul-mod_left y (2 ^ k) ∙ sym (zero-mod (2 ^ k))
digits_high (suc n) (suc a) y zero h = mod-one _ ∙ sym (mod-one _)
digits_high (suc n) (suc a) y (suc k) h =
    let ih = digits_high n (suc a / 2) y k (omega arith) in
    let p = power-pos k in
    let e = pow-suc 2 k in
    let whole : y * 2 ^ suc k ≡ y * 2 ^ k * 2 = ap (λ m. y * m) e ∙ sym (mul_assoc y (2 ^ k) 2) in
    let half : y * 2 ^ suc k / 2 ≡ y * 2 ^ k = omega (arith, whole) in
    let even : y * 2 ^ suc k % 2 ≡ 0 = omega (arith, whole) in
    let d = digits (λ b. b) differ n (suc a / 2) (y * 2 ^ k) in
    let x = d * 2 + suc a % 2 in
    let low : x / 2 ≡ d = omega arith in
    let one : x % 2 ≡ suc a % 2 = omega arith in
    rw (
      half,
      even,
      differ_zero (suc a % 2),
      e,
      half_mod (2 ^ k) x p,
      half_mod (2 ^ k) (suc a) p,
      low,
      one,
      ih,
    )

pub bit_xor-high : (a y k : ℕ) → bit_xor a (y * 2 ^ k) % 2 ^ k ≡ a % 2 ^ k
bit_xor-high a y k =
    ap (λ x. x % 2 ^ k) (bit_xor-bitwise a (y * 2 ^ k)) ∙ digits_high a a y k (omega arith)
