-- ===== src/Text/Compare.antt =====
-- source/string.c: `ith_strcasecmp`, `ith_strncasecmp`, `ith_strcmp` and `ith_strncmp`.
-- The four functions are two loops over a key, by which bytes are compared, and a value, whose
-- difference is returned. `none` is a read past the NUL of the second string.
pub mod Zero
pub mod Order
use ithildin.Base.{
  ℕ, zero, suc, ◌-◌, [], ◌∷◌, Option, none, some, ltb, ◌==◌, if◌then◌else◌, ℤ, pos, negsuc, ◌-ℤ◌,
}
use ithildin.Text.Case.{Bytes, peek, tolower}

-- The value of a plain char, which is signed on the machines that the program runs on.
unfoldable pub schar : ℕ → ℤ
schar c = if ltb c 128 then pos c else negsuc (255 - c)

module _ (key : ℕ → ℕ) (value : ℕ → ℤ) where
  -- while (key(*one) == key(*two++)) if (*one++ == '\0') return 0;
  unfoldable pub cmp_loop : Bytes → Bytes → Option ℤ
  cmp_loop [] two =
      if key 0 == key (peek two) then some (pos 0) else some (value 0 -ℤ value (peek two))
  cmp_loop (c ∷ one) [] =
      if key c == key 0 then if c == 0 then some (pos 0) else none else some (value c -ℤ value 0)
  cmp_loop (c ∷ one) (d ∷ two) =
      if key c == key d
      then if c == 0 then some (pos 0) else cmp_loop one two
      else some (value c -ℤ value d)

  -- After the NUL of the second string the loop reads on, unless its count has run out.
  past_end : ℕ → Option ℤ
  past_end zero = some (pos 0)
  past_end (suc n) = none

  -- The same loop under `while (--len != 0)`.
  unfoldable pub ncmp_loop : ℕ → Bytes → Bytes → Option ℤ
  unfolding past_end
  ncmp_loop zero one two = some (pos 0)
  ncmp_loop (suc n) [] two =
      if key 0 == key (peek two) then some (pos 0) else some (value 0 -ℤ value (peek two))
  ncmp_loop (suc n) (c ∷ one) [] =
      if key c == key 0
      then if c == 0 then some (pos 0) else past_end n
      else some (value c -ℤ value 0)
  ncmp_loop (suc n) (c ∷ one) (d ∷ two) =
      if key c == key d
      then if c == 0 then some (pos 0) else ncmp_loop n one two
      else some (value c -ℤ value d)

unfoldable pub strcasecmp : Bytes → Bytes → Option ℤ
strcasecmp = cmp_loop tolower (λ c. pos (tolower c))

-- A count of the C code below 0 is not modelled.
unfoldable pub strncasecmp : Bytes → Bytes → ℕ → Option ℤ
strncasecmp one two len = ncmp_loop tolower (λ c. pos (tolower c)) len one two

unfoldable pub strcmp : Bytes → Bytes → Option ℤ
strcmp = cmp_loop (λ c. c) schar

unfoldable pub strncmp : Bytes → Bytes → ℕ → Option ℤ
strncmp one two len = ncmp_loop (λ c. c) schar len one two
