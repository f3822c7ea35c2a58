-- ===== src/Text/Time/Roundtrip.antt =====
-- `str_conv_time` reads what `time_conv_str` writes.
use ithildin.Base.{
  ℕ, ◌+◌, ◌*◌, ◌/◌, ◌%◌, ◌^◌, ◌<◌, ◌≡◌, refl, sym, ap, ◌∙◌, ◌≢◌, inl, inr, true, false, Option,
  none, some, [], ◌∷◌, ◌++◌, append_assoc, arith, ltb, ◌==◌, ==_iff, ==_refl, ==_ne, Bool-cases,
  length, All, All-append, ℤ, pos, ◌+ℤ◌, +ℤ-pos,
}
use ithildin.Text.Case.{Bytes}
use ithildin.Text.Time.{
  mul_int, as_int-small, cut, str_conv_int, take_unit, str_conv_time, field, fields, time_conv_str,
  IsDigit, IsDecimal,
}

abbrev Without : ℕ → Bytes → Type 0
Without ch s = All (λ c. c ≢ ch) s

cut-Without : (ch : ℕ) (s : Bytes) → Without ch s → cut ch s ≡ none
unfolding cut
cut-Without ch [] h = refl
cut-Without ch (c ∷ s) h = rw (==_ne c ch h.0, cut-Without ch s h.1)

cut_first : (ch : ℕ) (s rest : Bytes) → Without ch s → cut ch (s ++ (ch ∷ rest)) ≡ some (s, rest)
unfolding cut
cut_first ch [] rest h = rw (==_refl ch)
cut_first ch (c ∷ s) rest h = rw (==_ne c ch h.0, cut_first ch s rest h.1)

digits-Without : (ch : ℕ) (s : Bytes) → b'9' < ch → All IsDigit s → Without ch s
digits-Without ch [] l h = tt
digits-Without ch (c ∷ s) l h = ((omega arith), digits-Without ch s l h.1)

nil_of_length : (s : Bytes) → (length s == 0) ≡ true → s ≡ []
nil_of_length [] e = refl
nil_of_length (c ∷ s) e = absurd (ground arith)

module _ (strtol : Bytes → Option ℤ) (print : ℕ → Bytes) (decimal : IsDecimal strtol print) where
  field-Without : (ch unit n : ℕ) → b'9' < ch → unit ≢ ch → Without ch (field print unit n)
  unfolding field
  field-Without ch unit n l q = elim (Bool-cases (n == 0)) [
    | inl e ↦ rw e tt
    | inr e ↦ rw e (
        All-append _ (print n) (unit ∷ []) (digits-Without ch (print n) l (decimal.digits n))
          (q, tt))
  ]

  field-zero : (ch n : ℕ) → (n == 0) ≡ true → field print ch n ≡ []
  unfolding field
  field-zero ch n e = rw e

  field-some :
      (ch n : ℕ) (rest : Bytes)
      → (n == 0) ≡ false
      → field print ch n ++ rest ≡ print n ++ (ch ∷ rest)
  unfolding field
  field-some ch n rest e = rw e (append_assoc (print n) (ch ∷ []) rest)

  take_unit-none :
      (ch unit : ℕ) (rest : Bytes)
      → Without ch rest
      → take_unit strtol ch unit rest ≡ some (pos 0, rest)
  unfolding take_unit
  take_unit-none ch unit rest w = rw (take_unit, cut-Without ch rest w)

  take_unit-some :
      (ch unit n : ℕ) (rest : Bytes)
      → b'9' < ch
      → n < 2 ^ 31
      → n * unit < 2 ^ 31
      → take_unit strtol ch unit (print n ++ (ch ∷ rest)) ≡ some (pos (n * unit), rest)
  unfolding take_unit str_conv_int mul_int
  take_unit-some ch unit n rest l small fits =
      let b : ltb (n * unit) (2 ^ 31) ≡ true = ground arith in
      rw (
        take_unit,
        cut_first ch (print n) rest (digits-Without ch (print n) l (decimal.digits n)),
        str_conv_int,
        decimal.back n small,
        as_int-small n small,
        mul_int,
        b,
      )

  take_unit-field :
      (ch unit n : ℕ) (rest : Bytes)
      → b'9' < ch
      → Without ch rest
      → n < 2 ^ 31
      → n * unit < 2 ^ 31
      → take_unit strtol ch unit (field print ch n ++ rest) ≡ some (pos (n * unit), rest)
  take_unit-field ch unit n rest l w small fits = elim (Bool-cases (n == 0)) [
    | inl e ↦
        let z : n ≡ 0 = (==_iff n 0).0 e in
        rw (field-zero ch n e) (
          take_unit-none ch unit rest w
          ∙ ap (λ x. some (pos x, rest)) (omega (arith, z, ap (λ x. x * unit) z)))
    | inr e ↦ rw (field-some ch n rest e) (take_unit-some ch unit n rest l small fits)
  ]

  str_conv_time_run :
      (str s s' s'' : Bytes) (days hours minutes : ℕ)
      → take_unit strtol b'd' 86400 str ≡ some (pos days, s)
      → take_unit strtol b'h' 3600 s ≡ some (pos hours, s')
      → take_unit strtol b'm' 60 s' ≡ some (pos minutes, s'')
      → str_conv_time strtol str
        ≡ some (pos (days + hours + minutes) +ℤ str_conv_int strtol s'' (pos 0))
  unfolding str_conv_time
  str_conv_time_run str s s' s'' days hours minutes e1 e2 e3 =
      rw (str_conv_time, e1, e2, e3, +ℤ-pos days hours, +ℤ-pos (days + hours) minutes)

  seconds : (n : ℕ) → n < 2 ^ 31 → str_conv_int strtol (field print b's' n) (pos 0) ≡ pos n
  unfolding str_conv_int field
  seconds n small = elim (Bool-cases (n == 0)) [
    | inl e ↦
        rw (e, str_conv_int, decimal.empty, as_int-small 0 (omega arith))
          (ap pos (sym ((==_iff n 0).0 e)))
    | inr e ↦ rw (e, str_conv_int, decimal.back_s n small, as_int-small n small)
  ]

  total :
      (n s itime : ℕ)
      → n + s ≡ itime
      → str_conv_int strtol (field print b's' s) (pos 0) ≡ pos s
      → pos n +ℤ str_conv_int strtol (field print b's' s) (pos 0) ≡ pos itime
  total n s itime e q = ap (λ z. pos n +ℤ z) q ∙ +ℤ-pos n s ∙ ap pos e

  fields_back :
      (itime : ℕ) → itime < 2 ^ 31 → str_conv_time strtol (fields print itime) ≡ some (pos itime)
  unfolding fields
  fields_back itime small =
      let d = itime / 86400 in
      let h = itime % 86400 / 3600 in
      let m = itime % 86400 % 3600 / 60 in
      let s = itime % 86400 % 3600 % 60 in
      let w = λ (ch unit n : ℕ) (l : b'9' < ch) (q : unit ≢ ch). field-Without ch unit n l q in
      let ws : (ch : ℕ) → b'9' < ch → b's' ≢ ch → Without ch (field print b's' s) =
        λ ch l q. w ch b's' s l q in
      let wm : (ch : ℕ)
          → b'9' < ch
          → b's' ≢ ch
          → b'm' ≢ ch
          → Without ch (field print b'm' m ++ field print b's' s) =
        λ ch l q q'. All-append _ (field print b'm' m) _ (w ch b'm' m l q') (ws ch l q) in
      let wh : Without b'd' (field print b'h' h ++ (field print b'm' m ++ field print b's' s)) =
        All-append _ (field print b'h' h) _ (w b'd' b'h' h (omega arith) (omega arith))
          (wm b'd' (omega arith) (omega arith) (omega arith)) in
      str_conv_time_run _ _ _ _ _ _ _
        (take_unit-field b'd' 86400 d
          (field print b'h' h ++ (field print b'm' m ++ field print b's' s)) (omega arith) wh
          (omega arith) (omega arith))
        (take_unit-field b'h' 3600 h (field print b'm' m ++ field print b's' s) (omega arith)
          (wm b'h' (omega arith) (omega arith) (omega arith)) (omega arith) (omega arith))
        (take_unit-field b'm' 60 m (field print b's' s) (omega arith)
          (ws b'm' (omega arith) (omega arith)) (omega arith) (omega arith))
      ∙ ap some (total _ s itime (omega arith) (seconds s (omega arith)))

  zero_back : str_conv_time strtol (b'0' ∷ b's' ∷ []) ≡ some (pos 0)
  unfolding str_conv_time take_unit cut str_conv_int
  zero_back = rw (str_conv_int, decimal.zero_s, as_int-small 0 (omega arith))

  nil_back : str_conv_time strtol [] ≡ some (pos 0)
  unfolding str_conv_time take_unit cut str_conv_int
  nil_back = rw (str_conv_int, decimal.empty, as_int-small 0 (omega arith))

  no_fields : (itime : ℕ) → itime < 2 ^ 31 → (length (fields print itime) == 0) ≡ true → 0 ≡ itime
  no_fields itime small e =
      let back = rw (nil_of_length (fields print itime) e) at (fields_back itime small) in
      let both : some (pos 0) ≡ some (pos itime) = sym nil_back ∙ back in cc

  -- A time below 2 ^ 31 that `time_conv_str` has written is read back by `str_conv_time`, without
  -- an overflow.
  pub str_conv_time-time_conv_str :
      (itime : ℕ)
      → itime < 2 ^ 31
      → str_conv_time strtol (time_conv_str print itime) ≡ some (pos itime)
  unfolding time_conv_str
  str_conv_time-time_conv_str itime small = elim (Bool-cases (length (fields print itime) == 0)) [
    | inr e ↦ rw e (fields_back itime small)
    | inl e ↦ rw e (zero_back ∙ ap (λ n. some (pos n)) (no_fields itime small e))
  ]
