-- ===== src/Text/Encode/Roundtrip.antt =====
-- A decoding of an encoding.
use native.Mathlib.Nat.{mul-div_cancel, mul-add-div_right, div-eq_of_lt}
use ithildin.Base.{
  ℕ, suc, ◌+◌, ◌*◌, ◌/◌, ◌^◌, ◌≤◌, ◌<◌, ◌≡◌, refl, sym, ap, ◌∙◌, subst, false, some, List, [], ◌∷◌,
  ◌++◌, arith, ◌==◌, if◌then◌else◌, length,
}
use ithildin.Text.Case.{Bytes}
use ithildin.Text.Encode.{str_base_encode, str_base_decode}
use ithildin.Text.Encode.Words.{val}
use ithildin.Text.Encode.Write.{chars}
use ithildin.Text.Encode.Stream.{IsBytes, str_base_encode-Writes}
use ithildin.Text.Encode.Read.{decode_loop-Reads}

-- Bytes are known by the number that they are.
val-same :
    (xs ys : Bytes) (v w : ℕ)
    → IsBytes xs
    → IsBytes ys
    → length xs ≡ length ys
    → val 256 xs v ≡ val 256 ys w
    → (xs ≡ ys) × (v ≡ w)
unfolding val
val-same [] [] v w a b l e = (refl, e)
val-same [] (y ∷ ys) v w a b l e = absurd (omega arith)
val-same (x ∷ xs) [] v w a b l e = absurd (omega arith)
val-same (x ∷ xs) (y ∷ ys) v w a b l e =
    let (same, n) = val-same xs ys (v * 256 + x) (w * 256 + y) a.1 b.1 (omega arith) e in
    let p : x ≡ y = omega (arith, n, a.0, b.0) in
    (ap (λ x. x ∷ xs) p ∙ ap (λ l. y ∷ l) same, omega (arith, n, a.0, b.0))

same_quotient : (a b r p : ℕ) → r < p → a * p ≡ b * p + r → a ≡ b
same_quotient a b r p l e =
    let h : 0 < p = omega arith in
    sym (mul-div_cancel a h)
    ∙ ap (λ x. x / p) e
    ∙ mul-add-div_right h b r
    ∙ omega (arith, div-eq_of_lt l)

length-chars : (type : ℕ) (ds : List ℕ) → length (chars type ds) ≡ length ds
length-chars type [] = refl
length-chars type (d ∷ ds) = ap suc (length-chars type ds)

whole_digits :
    (left m n pad : ℕ)
    → left ≡ pad
    → m ≡ n + pad
    → ◌≡◌ {A = ℕ} (if left == 0 then 0 else 1) (if m == n then 0 else 1)
whole_digits left m n pad p e = ground arith

-- The encoding of bytes with digits of 1 to 6 bits ends within one round more than there are
-- bytes. Its decoding gives the bytes back without an error, and one byte more behind them,
-- unless the digits hold just the bits of the bytes.
pub str_base_decode-str_base_encode :
    (fuel type : ℕ) (src : Bytes)
    → length src < fuel
    → 0 < type
    → type ≤ 6
    → IsBytes src
    → (out : Bytes) × (tail : Bytes) × (str_base_encode fuel type src ≡ some out)
      × (str_base_decode type out ≡ (src ++ tail, false))
      × (length tail ≡ (if type * length out == 8 * length src then 0 else 1))
unfolding str_base_decode
str_base_decode-str_base_encode fuel type src f z t a =
    let (out, run, w) = str_base_encode-Writes fuel type src f z t a in
    let r = decode_loop-Reads type 0 0 false w.ds t (omega arith) w.digits in
    let n : length r.bytes ≡ length src = omega (arith, w.length_eq, r.length_eq, w.less, r.less) in
    let p : r.left ≡ w.pad = omega (arith, w.length_eq, r.length_eq, w.less, r.less) in
    let q : val 256 src 0 * 2 ^ w.pad ≡ val 256 r.bytes 0 * 2 ^ w.pad + r.rest =
      sym (w.value 0) ∙ r.value 0 ∙ ap (λ k. val 256 r.bytes 0 * 2 ^ k + r.rest) p in
    let small : r.rest < 2 ^ w.pad = subst (λ k. r.rest < 2 ^ k) p r.small in
    let same =
      val-same r.bytes src 0 0 r.full a n
        (sym (same_quotient (val 256 src 0) (val 256 r.bytes 0) r.rest (2 ^ w.pad) small q)) in
    let count = ap length w.written ∙ length-chars type w.ds in
    (
      out,
      r.tail,
      run,
      ap (str_base_decode type) w.written
          ∙ ap (λ b. (b, (str_base_decode type (chars type w.ds)).1))
              (r.written ∙ ap (λ l. l ++ r.tail) same.0)
          ∙ ap (λ b. (src ++ r.tail, b)) r.error,
      r.ends
          ∙ whole_digits r.left (type * length out) (8 * length src) w.pad p
              (omega (arith, ap (λ n. type * n) count, w.length_eq)),
    )
