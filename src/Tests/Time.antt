-- ===== src/Tests/Time.antt =====
-- The time strings of source/string.c with a decimal print and parser.
use ithildin.Base.{
  ℕ, zero, suc, ◌+◌, ◌-◌, ◌*◌, ◌/◌, ◌%◌, ◌^◌, ◌<◌, ◌≡◌, refl, ap, ◌∙◌, inl, inr, true, ◌&&◌, Option,
  some, [], ◌∷◌, ◌++◌, tail, arith, ltb, leb, if◌then◌else◌, ltb→lt, Bool-cases, All, ℤ, pos,
}
use native.Mathlib.Nat.{pow-suc}
use ithildin.Text.Case.{Bytes}
use ithildin.Text.Time.{str_conv_time, time_conv_str, IsDigit, IsDecimal}
use ithildin.Text.Time.Roundtrip.{str_conv_time-time_conv_str}

unfoldable pub write_digits : ℕ → ℕ → Bytes → Bytes
write_digits zero n tail = tail
write_digits (suc rounds) n tail =
    let more = write_digits rounds (n / 10) ((48 + n % 10) ∷ tail) in
    if ltb n 10 then (48 + n) ∷ tail else more

abbrev print : ℕ → Bytes
print n = write_digits 31 n []

unfoldable pub read_digits : ℕ → Bytes → ℕ
read_digits acc [] = acc
read_digits acc (c ∷ s) =
    let more = read_digits (acc * 10 + (c - 48)) s in if leb 48 c && leb c 57 then more else acc

abbrev strtol : Bytes → Option ℤ
strtol s = some (pos (read_digits 0 s))

write_digits-IsDigit :
    (rounds n : ℕ) (tail : Bytes) → All IsDigit tail → All IsDigit (write_digits rounds n tail)
unfolding write_digits
write_digits-IsDigit zero n tail h = h
write_digits-IsDigit (suc rounds) n tail h = elim (Bool-cases (ltb n 10)) [
  | inl e ↦ rw e ((omega arith, (let l = ltb→lt n 10 e in omega arith)), h)
  | inr e ↦ rw e (write_digits-IsDigit rounds (n / 10) _ ((omega arith, omega arith), h))
]

read_digits_step :
    (acc d : ℕ) (tail : Bytes)
    → d < 10
    → read_digits acc ((48 + d) ∷ tail) ≡ read_digits (acc * 10 + d) tail
unfolding read_digits
read_digits_step acc d tail h =
    let a : leb 48 (48 + d) ≡ true = ground arith in
    let b : leb (48 + d) 57 ≡ true = ground arith in
    let v : 48 + d - 48 ≡ d = omega arith in rw (a, b, v)

read_digits-write_digits :
    (rounds n : ℕ) (tail : Bytes)
    → n < 2 ^ rounds
    → read_digits 0 (write_digits rounds n tail) ≡ read_digits n tail
unfolding write_digits
read_digits-write_digits zero n tail h =
    let e : 0 ≡ n = omega arith in ap (λ x. read_digits x tail) e
read_digits-write_digits (suc rounds) n tail h = elim (Bool-cases (ltb n 10)) [
  | inl e ↦
      let z : 0 * 10 + n ≡ n = omega arith in
      rw e (read_digits_step 0 n tail (ltb→lt n 10 e) ∙ ap (λ x. read_digits x tail) z)
  | inr e ↦
      let v : n / 10 * 10 + n % 10 ≡ n = omega arith in
      rw e (
        read_digits-write_digits rounds (n / 10) _ (omega (arith, pow-suc 2 rounds))
        ∙ read_digits_step (n / 10) (n % 10) tail (omega arith)
        ∙ ap (λ x. read_digits x tail) v)
]

write_digits-append :
    (rounds n : ℕ) (tail more : Bytes)
    → write_digits rounds n tail ++ more ≡ write_digits rounds n (tail ++ more)
unfolding write_digits
write_digits-append zero n tail more = refl
write_digits-append (suc rounds) n tail more = elim (Bool-cases (ltb n 10)) [
  | inl e ↦ rw e
  | inr e ↦ rw e (write_digits-append rounds (n / 10) ((48 + n % 10) ∷ tail) more)
]

decimal : IsDecimal strtol print
unfolding read_digits
decimal = record {
  digits = λ n. write_digits-IsDigit 31 n [] tt;
  back = λ n h. ap (λ n. some (pos n)) (read_digits-write_digits 31 n [] h);
  back_s = λ n h.
      ap (λ s. some (pos (read_digits 0 s))) (write_digits-append 31 n [] (b's' ∷ []))
      ∙ ap (λ n. some (pos n)) (read_digits-write_digits 31 n (b's' ∷ []) h);
  empty = refl;
  zero_s = refl;
}

str_conv_time-time_conv_str_example :
    str_conv_time strtol (time_conv_str print 93784) ≡ some (pos 93784)
str_conv_time-time_conv_str_example =
    str_conv_time-time_conv_str strtol print decimal 93784 (omega arith)
