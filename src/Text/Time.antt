-- ===== src/Text/Time.antt =====
-- source/string.c: `str_conv_int`, `str_conv_time` and `time_conv_str`, on strings that are
-- there: a null pointer only yields the default. `strtol` gives the number that a text begins
-- with, a long, and none where it sets errno; it is cut to an int of 32 bits. `print` is what
-- `sprintf` writes for "%d", of times that are not below 0. The code writes a NUL over each unit,
-- so a part of the text ends there.
pub mod Roundtrip
use ithildin.Base.{
  ℕ, zero, suc, ◌+◌, ◌-◌, ◌*◌, ◌/◌, ◌%◌, ◌^◌, ◌≤◌, ◌<◌, bit_and, bit_xor, min, ◌≡◌, refl, sym, ap,
  ◌∙◌, subst, ◌≢◌, ◌↔◌, ◌⊎◌, inl, inr, Bool, true, false, ◌&&◌, ◌||◌, not, Option, none, some, List,
  [], ◌∷◌, ◌++◌, map, reverse, append-nil, append_assoc, tail, arith, ltb, leb, ◌==◌, if◌then◌else◌,
  ltb→lt, leb→le, ==_iff, ==_refl, ==_ne, Bool-cases, Option-cases, u32, length, get_elem?, get_or,
  set, take, drop, replicate, All, length-append, length-set, length-replicate, get_or-replicate,
  get_or-set_self, get_or-set_ne, All-append, take-append_exact, passes, passes-lt, ℤ, pos, negsuc,
  sub_ℕ, neg, pos_part, neg_part, ◌-ℤ◌, ◌+ℤ◌, sub_ℕ-zero, neg-sub_ℕ, is_zero,
}
use ithildin.Text.Case.{Bytes}

abbrev int_limit : ℕ
int_limit = 2 ^ 31

-- A product of the type int, with a positive constant; `none` is overflow.
unfoldable pub mul_int : ℤ → ℕ → Option ℤ
mul_int (pos a) b = if ltb (a * b) int_limit then some (pos (a * b)) else none
mul_int (negsuc a) b = if leb (suc a * b) int_limit then some (neg (pos (suc a * b))) else none

-- The conversion to `int` of the number whose lowest 32 bits are given.
unfoldable pub of_u32 : ℕ → ℤ
of_u32 n = if ltb n int_limit then pos n else negsuc (u32 - 1 - n)

-- The conversion of a `long` to `int`.
unfoldable pub as_int : ℤ → ℤ
unfolding of_u32
as_int (pos n) = of_u32 (n % u32)
as_int (negsuc n) = of_u32 (u32 - 1 - n % u32)

pub as_int-small : (n : ℕ) → n < 2 ^ 31 → as_int (pos n) ≡ pos n
unfolding as_int of_u32
as_int-small n h =
    let e : n % u32 ≡ n = omega arith in let b : ltb n int_limit ≡ true = ground arith in rw (e, b)

-- The text before the first place of `ch`, and the text behind it.
unfoldable pub cut : ℕ → Bytes → Option (Bytes × Bytes)
cut ch [] = none
cut ch (c ∷ s) =
    if c == ch then some ([], s) else elim (cut ch s) as (λ o. Option (Bytes × Bytes)) [
      | none ↦ none
      | some (part, rest) ↦ some (c ∷ part, rest)
    ]

module _ (strtol : Bytes → Option ℤ) where
  unfoldable pub str_conv_int : Bytes → ℤ → ℤ
  unfolding as_int
  str_conv_int str default = elim (strtol str) [ none ↦ default | some n ↦ as_int n ]

  -- One of the three blocks: what it adds, and the text that is left.
  unfoldable pub take_unit : ℕ → ℕ → Bytes → Option (ℤ × Bytes)
  unfolding cut mul_int str_conv_int
  take_unit ch unit s = elim (cut ch s) [
    | none ↦ some (pos 0, s)
    | some (part, rest) ↦ elim (mul_int (str_conv_int part (pos 0)) unit) [
      | none ↦ none
      | some added ↦ some (added, rest)
    ]
  ]

  -- The sum is a `time_t`, of 64 bits.
  unfoldable pub str_conv_time : Bytes → Option ℤ
  unfolding take_unit
  str_conv_time str = elim (take_unit b'd' 86400 str) [
    | none ↦ none
    | some (days, s) ↦ elim (take_unit b'h' 3600 s) [
      | none ↦ none
      | some (hours, s') ↦ elim (take_unit b'm' 60 s') [
        | none ↦ none
        | some (minutes, s'') ↦ some (days +ℤ hours +ℤ minutes +ℤ str_conv_int s'' (pos 0))
      ]
    ]
  ]

module _ (print : ℕ → Bytes) where
  -- if (n) rlen += sprintf(rbuf + rlen, "%d<ch>", n);
  unfoldable pub field : ℕ → ℕ → Bytes
  field ch n = if n == 0 then [] else print n ++ (ch ∷ [])

  -- What the four calls of `sprintf` leave in the buffer.
  unfoldable pub fields : ℕ → Bytes
  unfolding field
  fields itime =
      let d = itime / 86400 in
      let h = itime % 86400 / 3600 in
      let m = itime % 86400 % 3600 / 60 in
      let s = itime % 86400 % 3600 % 60 in
      field b'd' d ++ (field b'h' h ++ (field b'm' m ++ field b's' s))

  unfoldable pub time_conv_str : ℕ → Bytes
  unfolding fields
  time_conv_str itime =
      let rbuf = fields itime in if length rbuf == 0 then b'0' ∷ b's' ∷ [] else rbuf

abbrev pub IsDigit : ℕ → Type 0
IsDigit c = (b'0' ≤ c) × (c ≤ b'9')

-- What the C library says of the two: "%d" writes digits, and `strtol` reads them back, whether
-- they end the text or an s follows; it reads 0 from an empty text, and from "0s".
pub record IsDecimal (strtol : Bytes → Option ℤ) (print : ℕ → Bytes) : Type 0 where
  pub digits : (n : ℕ) → All IsDigit (print n)
  pub back : (n : ℕ) → n < 2 ^ 31 → strtol (print n) ≡ some (pos n)
  pub back_s : (n : ℕ) → n < 2 ^ 31 → strtol (print n ++ (b's' ∷ [])) ≡ some (pos n)
  pub empty : strtol [] ≡ some (pos 0)
  pub zero_s : strtol (b'0' ∷ b's' ∷ []) ≡ some (pos 0)
