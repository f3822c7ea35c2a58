-- ===== src/Text/Encode/Write.antt =====
-- The digits that the inner loop of the encoder writes.
use native.Mathlib.Nat.{
  pow-suc, mod-lt, div-add-mod, mul_assoc, mul_comm, add-mul, div-lt_iff_lt-mul, mul-one, mul-suc,
}
use ithildin.Base.{
  ℕ, zero, suc, ◌+◌, ◌-◌, ◌*◌, ◌/◌, ◌%◌, ◌^◌, ◌≤◌, ◌<◌, bit_and, ◌≡◌, refl, sym, ap, ◌∙◌, inl, inr,
  List, [], ◌∷◌, map, arith, leb, ◌==◌, leb→le, ==_iff, Bool-cases, length, get_or, All, passes,
  passes-lt,
}
use ithildin.Text.Case.{Bytes}
use ithildin.Text.Encode.{emap, emit}
use ithildin.Text.Encode.Words.{val, power-pos, bit_and-mask}

pub pow-add : (i j : ℕ) → 2 ^ (i + j) ≡ 2 ^ i * 2 ^ j
pow-add i zero = let e : i + 0 ≡ i = omega arith in ap (λ n. 2 ^ n) e ∙ sym (mul-one (2 ^ i))
pow-add i (suc j) =
    let e : i + suc j ≡ suc (i + j) = omega arith in
    ap (λ n. 2 ^ n) e
    ∙ pow-suc 2 (i + j)
    ∙ ap (λ m. m * 2) (pow-add i j)
    ∙ mul_assoc (2 ^ i) (2 ^ j) 2
    ∙ ap (λ m. 2 ^ i * m) (sym (pow-suc 2 j))

-- 0xff >> (8 - k)
low_ones : (k : ℕ) → k ≤ 8 → 255 / 2 ^ (8 - k) ≡ 2 ^ k - 1
unfolding passes
low_ones k h =
    (==_iff (255 / 2 ^ (8 - k)) (2 ^ k - 1)).0
      (passes-lt (λ k. 255 / 2 ^ (8 - k) == 2 ^ k - 1) 9 k refl (omega arith))

-- The characters of digits.
abbrev pub chars : ℕ → List ℕ → Bytes
chars type ds = map (λ d. get_or (emap type) d 0) ds

abbrev pub IsDigits : ℕ → List ℕ → Type 0
IsDigits type ds = All (λ d. d < 2 ^ type) ds

-- One digit off the front of a chunk.
pub split_chunk : (v q p c : ℕ) → 0 < p → v * (q * p) + c ≡ (v * q + c / p) * p + c % p
split_chunk v q p c h =
    let e = div-add-mod c p in
    let f = add-mul (v * q) (c / p) p in
    let g = mul_assoc v q p in let k = mul_comm p (c / p) in omega (arith, e, f, g, k)

-- What the inner loop gives.
pub record Emits (type chunk bits : ℕ) (r : Bytes × ℕ × ℕ) : Type 0 where
  pub ds : List ℕ
  pub written : r.0 ≡ chars type ds
  pub digits : IsDigits type ds
  pub less : r.2 < type
  pub fits : r.1 < 2 ^ r.2
  pub value : (v : ℕ) → val (2 ^ type) ds v * 2 ^ r.2 + r.1 ≡ v * 2 ^ bits + chunk
  pub length_eq : type * length ds + r.2 ≡ bits

pub emit-Emits :
    (rounds type chunk bits : ℕ)
    → bits ≤ rounds
    → 0 < type
    → bits < type + 8
    → chunk < 2 ^ bits
    → Emits type chunk bits (emit rounds type chunk bits)
unfolding emit val
emit-Emits zero type chunk bits h t b c = record {
  ds = [];
  written = refl;
  digits = tt;
  less = omega arith;
  fits = c;
  value = λ v. refl;
  length_eq = omega arith;
}
emit-Emits (suc rounds) type chunk bits h t b c = elim (Bool-cases (leb type bits)) [
  | inr e ↦
      rw (emit, e)
        (record {
          ds = [];
          written = refl;
          digits = tt;
          less = ground arith;
          fits = c;
          value = λ v. refl;
          length_eq = omega arith;
        })
  | inl e ↦
      let left = bits - type in
      let le : type ≤ bits = leb→le type bits e in
      let p = power-pos left in
      let mask : bit_and chunk (255 / 2 ^ (8 - left)) ≡ chunk % 2 ^ left =
        ap (λ m. bit_and chunk m) (low_ones left (omega arith)) ∙ bit_and-mask chunk left in
      let whole : 2 ^ bits ≡ 2 ^ type * 2 ^ left = pow-whole le in
      let ih =
        emit-Emits rounds type (bit_and chunk (255 / 2 ^ (8 - left))) left (omega arith) t
          (omega arith) (omega (arith, mask, mod-lt chunk p)) in
      let d = chunk / 2 ^ left in
      rw (emit, e)
        (record {
          ds = d ∷ ih.ds;
          written = ap (λ l. get_or (emap type) d 0 ∷ l) ih.written;
          digits = ((div-lt_iff_lt-mul p).1 (omega (arith, whole)), ih.digits);
          less = ih.less;
          fits = ih.fits;
          value = λ v. omega (
            arith,
            ih.value (v * 2 ^ type + d),
            mask,
            split_chunk v (2 ^ type) (2 ^ left) chunk p,
            ap (λ m. v * m) whole,
          );
          length_eq = omega (arith, ih.length_eq, mul-suc type (length ih.ds), le);
        })
]
  where
    pow-whole : type ≤ bits → 2 ^ bits ≡ 2 ^ type * 2 ^ (bits - type)
    pow-whole le =
        let e : bits ≡ type + (bits - type) = omega arith in
        ap (λ n. 2 ^ n) e ∙ pow-add type (bits - type)
