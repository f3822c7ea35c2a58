-- ===== src/Text/Copy.antt =====
-- source/string.c: `ith_strlen`, `ith_strchr`, `ith_strrchr`, `ith_strcpy`, `ith_strncpy`,
-- `ith_strcat`, `ith_strncat` and `ith_strdup`, on the memory that a pointer leads to.
pub mod Laws
use ithildin.Base.{ℕ, zero, suc, Option, none, some, List, [], ◌∷◌, map, ◌==◌, if◌then◌else◌, take}
use mathlib.Core.Option

-- The bytes from a pointer to the end of its object, NULs among them. `none` is an access beyond.
abbrev pub Cells : Type 0
Cells = List ℕ

-- `*p = v`
unfoldable pub store : Cells → ℕ → Option Cells
store [] v = none
store (x ∷ m) v = some (v ∷ m)

unfoldable pub strlen : Cells → Option ℕ
strlen [] = none
strlen (c ∷ m) = if c == 0 then some 0 else Option.map suc (strlen m)

-- The offset of the match, or `some none` for a null pointer. The NUL itself can be sought.
unfoldable pub strchr : Cells → ℕ → Option (Option ℕ)
strchr [] ch = none
strchr (c ∷ m) ch =
    if c == ch
    then some (some 0)
    else if c == 0
    then some none
    else Option.map (Option.map suc) (strchr m ch)

-- `at` is the offset of the cell in hand, `last` the last match so far.
strrchr_loop : Cells → ℕ → ℕ → Option ℕ → Option (Option ℕ)
strrchr_loop [] ch at last = none
strrchr_loop (c ∷ m) ch at last =
    let last' = if c == ch then some at else last in
    let rest = strrchr_loop m ch (suc at) last' in if c == 0 then some last' else rest

unfoldable pub strrchr : Cells → ℕ → Option (Option ℕ)
unfolding strrchr_loop
strrchr m ch = strrchr_loop m ch 0 none

-- The destination as it is left.
unfoldable pub strcpy : Cells → Cells → Option Cells
strcpy [] from = none
strcpy (x ∷ to) [] = none
strcpy (x ∷ to) (c ∷ from) =
    if c == 0 then some (0 ∷ to) else Option.map (λ m. c ∷ m) (strcpy to from)

-- `while (--len != 0) *t++ = '\0';` with `n` rounds left
unfoldable pub pad : ℕ → Cells → Option Cells
pad zero to = some to
pad (suc n) [] = none
pad (suc n) (x ∷ to) = Option.map (λ m. 0 ∷ m) (pad n to)

unfoldable pub strncpy : Cells → Cells → ℕ → Option Cells
unfolding pad
strncpy to from zero = some to
strncpy [] from (suc n) = none
strncpy (x ∷ to) [] (suc n) = none
strncpy (x ∷ to) (c ∷ from) (suc n) =
    Option.map (λ m. c ∷ m) (if c == 0 then pad n to else strncpy to from n)

unfoldable pub strcat : Cells → Cells → Option Cells
unfolding strcpy
strcat [] app = none
strcat (c ∷ str) app =
    if c == 0 then strcpy (c ∷ str) app else Option.map (λ m. c ∷ m) (strcat str app)

-- The second loop of `ith_strncat`, entered with a count above 0, and its last store.
strncat_copy : Cells → Cells → ℕ → Option Cells
strncat_copy [] app n = none
strncat_copy (x ∷ s) [] n = none
strncat_copy (x ∷ s) (c ∷ a) zero = some (x ∷ s)
strncat_copy (x ∷ s) (c ∷ a) (suc zero) =
    if c == 0 then some (0 ∷ s) else Option.map (λ m. c ∷ m) (store s 0)
strncat_copy (x ∷ s) (c ∷ a) (suc n) =
    if c == 0 then some (0 ∷ s) else Option.map (λ m. c ∷ m) (strncat_copy s a n)

strncat_end : Cells → Cells → ℕ → Option Cells
unfolding strncat_copy store
strncat_end [] app n = none
strncat_end (c ∷ str) app n =
    if c == 0 then strncat_copy (c ∷ str) app n else Option.map (λ m. c ∷ m) (strncat_end str app n)

unfoldable pub strncat : Cells → Cells → ℕ → Option Cells
unfolding strncat_end
strncat str app zero = some str
strncat str app (suc n) = strncat_end str app (suc n)

-- The fresh object, where `malloc` succeeds: `strlen(str) + 1` cells, filled by `memcpy`.
unfoldable pub strdup : Cells → Option Cells
unfolding strlen
strdup str = Option.map (λ n. take (suc n) str) (strlen str)
