-- ===== src/Text/Encode/Stream.antt =====
-- A whole encoding.
use native.Mathlib.Nat.{
  mul_assoc, mul-add, add-mul, pow-le-pow_right, mul-one, mod-eq_of_lt, mul-lt-mul_of_pos_right,
}
use ithildin.Base.{
  ℕ, zero, suc, ◌+◌, ◌-◌, ◌*◌, ◌%◌, ◌^◌, ◌≤◌, ◌<◌, ◌≡◌, refl, ap, ◌∙◌, inl, inr, true, some, List,
  [], ◌∷◌, ◌++◌, arith, ltb, ◌==◌, Bool-cases, u32, length, get_or, All, length-append, All-append,
}
use ithildin.Text.Case.{Bytes}
use ithildin.Text.Encode.{emap, emit, encode_loop, str_base_encode}
use ithildin.Text.Encode.Words.{val, val-append, power-pos}
use ithildin.Text.Encode.Write.{pow-add, chars, IsDigits, emit-Emits}

abbrev pub IsBytes : Bytes → Type 0
IsBytes src = All (λ c. c < 256) src

-- The digits are those of the number that the bytes are, with `pad` zeros behind.
pub record Writes (type chunk bits : ℕ) (src out : Bytes) : Type 0 where
  pub ds : List ℕ
  pub pad : ℕ
  pub written : out ≡ chars type ds
  pub digits : IsDigits type ds
  pub less : pad < type
  pub value : (v : ℕ) → val (2 ^ type) ds v ≡ val 256 src (v * 2 ^ bits + chunk) * 2 ^ pad
  pub length_eq : type * length ds ≡ bits + 8 * length src + pad

chars-append : (type : ℕ) (ds es : List ℕ) → chars type ds ++ chars type es ≡ chars type (ds ++ es)
chars-append type [] es = refl
chars-append type (d ∷ ds) es = ap (λ l. get_or (emap type) d 0 ∷ l) (chars-append type ds es)

-- A chunk in which the next byte has been read.
grown_chunk :
    (bits chunk c : ℕ)
    → bits < 6
    → chunk < 2 ^ bits
    → c < 256
    → ((chunk * 256 % u32 + c) % u32 ≡ chunk * 256 + c)
      × (chunk * 256 + c < 2 ^ (bits + 8))
      × (2 ^ (bits + 8) ≡ 2 ^ bits * 256)
grown_chunk bits chunk c b h k =
    let e = pow-add bits 8 in
    let b6 : bits ≤ 6 = omega arith in
    let few : 2 ^ bits ≤ 2 ^ 6 = pow-le-pow_right (omega arith) b6 in
    (omega (arith, few), omega (arith, e), e)

-- The end of an encoding.
last_digit :
    (type chunk bits : ℕ)
    → 0 < bits
    → bits < type
    → type ≤ 6
    → chunk < 2 ^ bits
    → (chunk * 2 ^ (type - bits) % u32 ≡ chunk * 2 ^ (type - bits))
      × (chunk * 2 ^ (type - bits) < 2 ^ type)
      × (2 ^ type ≡ 2 ^ bits * 2 ^ (type - bits))
last_digit type chunk bits z b t h =
    let e : type ≡ bits + (type - bits) = omega arith in
    let whole : 2 ^ type ≡ 2 ^ bits * 2 ^ (type - bits) =
      ap (λ n. 2 ^ n) e ∙ pow-add bits (type - bits) in
    let few : 2 ^ type ≤ 2 ^ 6 = pow-le-pow_right (omega arith) t in
    let less : chunk * 2 ^ (type - bits) < 2 ^ bits * 2 ^ (type - bits) =
      mul-lt-mul_of_pos_right h (power-pos (type - bits)) in
    (mod-eq_of_lt (omega (arith, few, whole, less)), omega (arith, whole, less), whole)

encode_end :
    (fuel type chunk bits : ℕ)
    → bits < type
    → type ≤ 6
    → chunk < 2 ^ bits
    → (out : Bytes) × (encode_loop (suc fuel) type chunk bits [] ≡ some out)
      × Writes type chunk bits [] out
unfolding encode_loop val
encode_end fuel type chunk bits b t h = elim (Bool-cases (bits == 0)) [
  | inl e ↦
      let z : bits ≡ 0 = ground arith in
      let one : 2 ^ bits ≡ 1 = ap (λ n. 2 ^ n) z in
      (
        [],
        rw (encode_loop, e),
        record {
          ds = [];
          pad = 0;
          written = refl;
          digits = tt;
          less = omega arith;
          value = λ v. omega (arith, one, ap (λ m. v * m) one ∙ mul-one v);
          length_eq = omega arith;
        },
      )
  | inr e ↦
      let (small, less, whole) = last_digit type chunk bits (ground arith) b t h in
      let d = chunk * 2 ^ (type - bits) % u32 in
      (
        get_or (emap type) d 0 ∷ [],
        rw (encode_loop, e),
        record {
          ds = d ∷ [];
          pad = type - bits;
          written = refl;
          digits = (omega (arith, small, less), tt);
          less = ground arith;
          value = λ v. omega (
            arith,
            small,
            add-mul (v * 2 ^ bits) chunk (2 ^ (type - bits)),
            mul_assoc v (2 ^ bits) (2 ^ (type - bits)),
            ap (λ m. v * m) whole,
          );
          length_eq = omega arith;
        },
      )
]

encode_loop-Writes :
    (fuel type chunk bits : ℕ) (src : Bytes)
    → length src < fuel
    → bits < type
    → type ≤ 6
    → chunk < 2 ^ bits
    → IsBytes src
    → (out : Bytes) × (encode_loop fuel type chunk bits src ≡ some out)
      × Writes type chunk bits src out
unfolding encode_loop val
encode_loop-Writes zero type chunk bits src f b t h a = absurd (omega arith)
encode_loop-Writes (suc fuel) type chunk bits [] f b t h a = encode_end fuel type chunk bits b t h
encode_loop-Writes (suc fuel) type chunk bits (c ∷ src) f b t h a =
    let reads : ltb bits type ≡ true = ground arith in
    let (small, fits, whole) = grown_chunk bits chunk c (omega arith) h a.0 in
    let chunk1 = (chunk * 256 % u32 + c) % u32 in
    let r = emit (bits + 8) type chunk1 (bits + 8) in
    let e =
      emit-Emits (bits + 8) type chunk1 (bits + 8) (omega arith) (omega arith) (omega arith)
        (omega (arith, small, fits)) in
    let (out, run, w) =
      encode_loop-Writes fuel type (r.1) (r.2) src (omega arith) e.less t e.fits a.1 in
    let joined : (v : ℕ)
        → val (2 ^ type) e.ds v * 2 ^ r.2 + r.1 ≡ (v * 2 ^ bits + chunk) * 256 + c =
      λ v. omega (arith, e.value v, small, ap (λ m. v * m) whole, mul_assoc v (2 ^ bits) 256) in
    (
      r.0 ++ out,
      rw (encode_loop, reads, run, reads),
      record {
        ds = e.ds ++ w.ds;
        pad = w.pad;
        written =
            ap (λ l. l ++ out) e.written
            ∙ ap (λ l. chars type e.ds ++ l) w.written
            ∙ chars-append type e.ds w.ds;
        digits = All-append (λ d. d < 2 ^ type) e.ds w.ds e.digits w.digits;
        less = w.less;
        value = λ v.
            val-append (2 ^ type) e.ds w.ds v
            ∙ w.value (val (2 ^ type) e.ds v)
            ∙ ap (λ n. val 256 src n * 2 ^ w.pad) (joined v);
        length_eq = omega (
          arith,
          w.length_eq,
          e.length_eq,
          ap (λ n. type * n) (length-append e.ds w.ds),
          mul-add type (length e.ds) (length w.ds),
        );
      },
    )

pub str_base_encode-Writes :
    (fuel type : ℕ) (src : Bytes)
    → length src < fuel
    → 0 < type
    → type ≤ 6
    → IsBytes src
    → (out : Bytes) × (str_base_encode fuel type src ≡ some out) × Writes type 0 0 src out
unfolding str_base_encode
str_base_encode-Writes fuel type src f z t a =
    encode_loop-Writes fuel type 0 0 src f z t (omega arith) a
