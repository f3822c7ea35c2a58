-- ===== src/Text/Encode/Shift.antt =====
-- A chunk of the decoder, of which only the low bits count.
use native.Mathlib.Nat.{
  mod-lt, mod-eq_of_lt, div-add-mod, add-mul-mod_self_left, mod-add-mod, mul_assoc, mul_comm,
  mul_right_comm, add-mul, suc-mul, mul-le-mul_right,
}
use ithildin.Base.{ℕ, suc, ◌+◌, ◌-◌, ◌*◌, ◌/◌, ◌%◌, ◌^◌, ◌≤◌, ◌<◌, ◌≡◌, sym, ap, ◌∙◌, arith, u32}
use ithildin.Text.Encode.Words.{power-pos}
use ithildin.Text.Encode.Write.{pow-add}

mod_mul_mod : (n m k : ℕ) → n % (m * k) % m ≡ n % m
mod_mul_mod n m k =
    let r = n % (m * k) in
    let t = n / (m * k) in
    let whole : n ≡ r + m * (k * t) = omega (arith, div-add-mod n (m * k), mul_assoc m k t) in
    sym (ap (λ x. x % m) whole ∙ add-mul-mod_self_left r m (k * t))

-- A digit shifted in.
shift_mod : (p q c d : ℕ) → 0 < p → d < q → (c * q + d) % (p * q) ≡ c % p * q + d
shift_mod p q c d h l =
    let r = c % p in
    let t = c / p in
    let low : suc r * q ≤ p * q = mul-le-mul_right q (mod-lt c h) in
    let less : r * q + d < p * q = omega (arith, low, suc-mul r q, l) in
    let whole : c * q + d ≡ r * q + d + p * q * t =
      omega (arith, ap (λ x. x * q) (div-add-mod c p), add-mul (p * t) r q, mul_right_comm p t q) in
    ap (λ x. x % (p * q)) whole ∙ add-mul-mod_self_left (r * q + d) (p * q) t ∙ mod-eq_of_lt less

-- The low bits of the chunk after a digit.
pub shifted :
    (type bits chunk d : ℕ)
    → bits + type ≤ 32
    → d < 2 ^ type
    → (chunk * 2 ^ type % u32 + d) % u32 % 2 ^ (bits + type) ≡ chunk % 2 ^ bits * 2 ^ type + d
shifted type bits chunk d h l =
    let m = 2 ^ (bits + type) in
    let k = 2 ^ (32 - (bits + type)) in
    let e : 32 ≡ bits + type + (32 - (bits + type)) = omega arith in
    let whole : u32 ≡ m * k = ap (λ n. 2 ^ n) e ∙ pow-add (bits + type) (32 - (bits + type)) in
    ap (λ x. x % m) (mod-add-mod (chunk * 2 ^ type) u32 d)
    ∙ ap (λ w. (chunk * 2 ^ type + d) % w % m) whole
    ∙ mod_mul_mod (chunk * 2 ^ type + d) m k
    ∙ ap (λ w. (chunk * 2 ^ type + d) % w) (pow-add bits type)
    ∙ shift_mod (2 ^ bits) (2 ^ type) chunk d (power-pos bits) l

-- A byte taken off the front.
pub taken : (n k : ℕ) → n % 2 ^ (k + 8) ≡ n / 2 ^ k % 256 * 2 ^ k + n % 2 ^ k
taken n k =
    let p = 2 ^ k in
    let a = n / p in
    let b = a % 256 in
    let r = n % p in
    let t = a / 256 in
    let lr : r < p = mod-lt n (power-pos k) in
    let low : suc b * p ≤ 256 * p = mul-le-mul_right p (mod-lt a (omega arith)) in
    let less : b * p + r < p * 256 = omega (arith, low, suc-mul b p, lr, mul_comm p 256) in
    let e : a ≡ 256 * t + b = sym (div-add-mod a 256) in
    let whole : n ≡ b * p + r + p * 256 * t = omega (
      arith,
      div-add-mod n p,
      mul_comm p a,
      ap (λ x. x * p) e,
      add-mul (256 * t) b p,
      mul_right_comm 256 t p,
      ap (λ x. x * t) (mul_comm 256 p),
    ) in
    ap (λ w. n % w) (pow-add k 8)
    ∙ ap (λ x. x % (p * 256)) whole
    ∙ add-mul-mod_self_left (b * p + r) (p * 256) t
    ∙ mod-eq_of_lt less

-- The number behind a chunk when a digit comes in, and when a byte goes out.
pub digit_in :
    (type bits c d v : ℕ)
    → (v * 2 ^ bits + c) * 2 ^ type + d ≡ v * 2 ^ (bits + type) + (c * 2 ^ type + d)
digit_in type bits c d v = omega (
  arith,
  add-mul (v * 2 ^ bits) c (2 ^ type),
  mul_assoc v (2 ^ bits) (2 ^ type),
  ap (λ m. v * m) (pow-add bits type),
)

pub byte_out : (k b r v : ℕ) → v * 2 ^ (k + 8) + (b * 2 ^ k + r) ≡ (v * 256 + b) * 2 ^ k + r
byte_out k b r v = omega (
  arith,
  ap (λ m. v * m) (pow-add k 8),
  mul_assoc v (2 ^ k) 256,
  mul_right_comm v (2 ^ k) 256,
  add-mul (v * 256) b (2 ^ k),
)
