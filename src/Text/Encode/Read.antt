-- ===== src/Text/Encode/Read.antt =====
-- The decoder on the characters of digits.
use native.Mathlib.Nat.{mod-lt, mul-suc, pow-le-pow_right}
use ithildin.Base.{
  ℕ, ◌+◌, ◌-◌, ◌*◌, ◌/◌, ◌%◌, ◌^◌, ◌≤◌, ◌<◌, bit_xor, ◌≡◌, refl, sym, ap, ◌∙◌, subst, inl, inr,
  Bool, true, false, List, [], ◌∷◌, ◌++◌, arith, leb, ◌==◌, if◌then◌else◌, leb→le, ==_iff,
  Bool-cases, u32, length, get_or, passes, passes-lt, ℤ, pos, negsuc,
}
use ithildin.Text.Case.{Bytes}
use ithildin.Text.Encode.{
  base_emap, base64_emap, base_dmap, base64_dmap, emap, dmap, bad, run, decode_loop,
}
use ithildin.Text.Encode.Words.{val, power-pos, bit_xor-high}
use ithildin.Text.Encode.Shift.{shifted, taken, digit_in, byte_out}
use ithildin.Text.Encode.Write.{chars, IsDigits}
use ithildin.Text.Encode.Stream.{IsBytes}

is_digit : ℤ → ℕ → Bool
is_digit (pos n) d = n == d
is_digit (negsuc n) d = false

is_digit-eq : (z : ℤ) (d : ℕ) → is_digit z d ≡ true → z ≡ pos d
unfolding is_digit
is_digit-eq (pos n) d h = ap pos ((==_iff n d).0 h)
is_digit-eq (negsuc n) d h = cc

-- The second table undoes the first.
dmap-emap :
    (type d : ℕ) → type ≤ 6 → d < 2 ^ type → get_or (dmap type) (get_or (emap type) d 0) bad ≡ pos d
unfolding passes is_digit run base_emap base64_emap base_dmap base64_dmap
dmap-emap type d t h = elim (Bool-cases (type == 6)) [
  | inl e ↦
      let z : type ≡ 6 = ground arith in
      let h' : d < 64 = subst (λ n. d < 2 ^ n) z h in
      subst (λ n. get_or (dmap n) (get_or (emap n) d 0) bad ≡ pos d) (sym z)
        (is_digit-eq (get_or (dmap 6) (get_or (emap 6) d 0) bad) d
          (passes-lt (λ d. is_digit (get_or (dmap 6) (get_or (emap 6) d 0) bad) d) 64 d refl h'))
  | inr e ↦
      let t5 : type ≤ 5 = ground arith in
      let few : 2 ^ type ≤ 2 ^ 5 = pow-le-pow_right (omega arith) t5 in
      rw e (
        is_digit-eq (get_or (dmap 5) (get_or (emap 5) d 0) bad) d (
          passes-lt (λ d. is_digit (get_or (dmap 5) (get_or (emap 5) d 0) bad) d) 32 d refl
            (omega (arith, few))))
]

-- The bytes are the number that the digits are, but for less than a byte at the end.
pub record Reads (type chunk bits : ℕ) (ds : List ℕ) (errno : Bool) (r : Bytes × Bool)
    : Type 0 where
  pub bytes : Bytes
  pub tail : Bytes
  pub rest : ℕ
  pub left : ℕ
  pub written : r.0 ≡ bytes ++ tail
  pub error : r.1 ≡ errno
  pub full : IsBytes bytes
  pub less : left < 8
  pub ends : length tail ≡ (if left == 0 then 0 else 1)
  pub value :
      (v : ℕ)
      → val (2 ^ type) ds (v * 2 ^ bits + chunk % 2 ^ bits) ≡ val 256 bytes v * 2 ^ left + rest
  pub small : rest < 2 ^ left
  pub length_eq : bits + type * length ds ≡ 8 * length bytes + left

pub decode_loop-Reads :
    (type chunk bits : ℕ) (errno : Bool) (ds : List ℕ)
    → type ≤ 6
    → bits < 8
    → IsDigits type ds
    → Reads type chunk bits ds errno (decode_loop type chunk bits errno (chars type ds))
unfolding decode_loop val
decode_loop-Reads type chunk bits errno [] t b a = record {
  bytes = [];
  tail = if bits == 0 then [] else chunk % 256 ∷ [];
  rest = chunk % 2 ^ bits;
  left = bits;
  written = refl;
  error = refl;
  full = tt;
  less = b;
  ends = ground arith;
  value = λ v. refl;
  small = mod-lt chunk (power-pos bits);
  length_eq = omega arith;
}
decode_loop-Reads type chunk bits errno (d ∷ ds) t b a =
    let look = dmap-emap type d t a.0 in
    let known : leb (2 ^ type) d ≡ false = ground (arith, a.0) in
    let chunk' = (chunk * 2 ^ type % u32 + d) % u32 in
    let low = shifted type bits chunk d (omega arith) a.0 in
    let joined : (v : ℕ)
        → (v * 2 ^ bits + chunk % 2 ^ bits) * 2 ^ type + d
          ≡ v * 2 ^ (bits + type) + chunk' % 2 ^ (bits + type) =
      λ v.
        digit_in type bits (chunk % 2 ^ bits) d v ∙ ap (λ c. v * 2 ^ (bits + type) + c) (sym low) in
    elim (Bool-cases (leb 8 (bits + type))) [
      | inr e ↦
          let ih = decode_loop-Reads type chunk' (bits + type) errno ds t (ground arith) a.1 in
          rw (decode_loop, look, known, e)
            (record {
              bytes = ih.bytes;
              tail = ih.tail;
              rest = ih.rest;
              left = ih.left;
              written = ih.written;
              error = ih.error;
              full = ih.full;
              less = ih.less;
              ends = ih.ends;
              value = λ v. ap (val (2 ^ type) ds) (joined v) ∙ ih.value v;
              small = ih.small;
              length_eq = omega (arith, ih.length_eq, mul-suc type (length ds));
            })
      | inl e ↦
          let ge : 8 ≤ bits + type = leb→le 8 (bits + type) e in
          let over = bits + type - 8 in
          let back : bits + type ≡ over + 8 = omega arith in
          let byte = chunk' / 2 ^ over % 256 in
          let chunk'' = bit_xor chunk' (255 * 2 ^ over) in
          let ih = decode_loop-Reads type chunk'' over errno ds t (omega arith) a.1 in
          let kept = bit_xor-high chunk' 255 over in
          let out : (v : ℕ)
              → v * 2 ^ (bits + type) + chunk' % 2 ^ (bits + type)
                ≡ (v * 256 + byte) * 2 ^ over + chunk'' % 2 ^ over =
            λ v.
              ap (λ n. v * 2 ^ n + chunk' % 2 ^ n) back
              ∙ ap (λ c. v * 2 ^ (over + 8) + c) (taken chunk' over)
              ∙ byte_out over byte (chunk' % 2 ^ over) v
              ∙ ap (λ c. (v * 256 + byte) * 2 ^ over + c) (sym kept) in
          rw (decode_loop, look, known, e)
            (record {
              bytes = byte ∷ ih.bytes;
              tail = ih.tail;
              rest = ih.rest;
              left = ih.left;
              written = ap (λ l. byte ∷ l) ih.written;
              error = ih.error;
              full = (mod-lt (chunk' / 2 ^ over) (omega arith), ih.full);
              less = ih.less;
              ends = ih.ends;
              value = λ v. ap (val (2 ^ type) ds) (joined v ∙ out v) ∙ ih.value (v * 256 + byte);
              small = ih.small;
              length_eq = omega (arith, ih.length_eq, mul-suc type (length ds));
            })
    ]
