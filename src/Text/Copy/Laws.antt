-- ===== src/Text/Copy/Laws.antt =====
-- The library replacements read and leave the memory that the C standard says.
use ithildin.Base.{
  leb, leb→le, Bool-cases, inl, inr, ℕ, zero, suc, ◌+◌, ◌-◌, ◌≤◌, ◌<◌, min, ◌≡◌, refl, ap, Option,
  none, some, [], ◌∷◌, ◌++◌, arith, ◌==◌, if◌then◌else◌, ==_ne, length, take, drop, replicate,
}
use mathlib.Core.Option
use ithildin.Text.Case.{Bytes, IsText}
use ithildin.Text.Copy.{
  Cells, store, strlen, strchr, strrchr, strrchr_loop, strcpy, pad, strncpy, strcat, strncat_copy,
  strncat_end, strncat, strdup,
}

-- A string in memory: its bytes, the NUL, and what follows.
abbrev pub string_at : Bytes → Cells → Cells
string_at s rest = s ++ (0 ∷ rest)

strlen-string_at : (s : Bytes) (r : Cells) → IsText s → strlen (string_at s r) ≡ some (length s)
unfolding strlen
strlen-string_at [] r h = refl
strlen-string_at (c ∷ s) r h = rw (==_ne c 0 (omega arith), strlen-string_at s r h.2)

-- The copy loop writes the string and its NUL over the destination, whose end is kept.
strcpy-string_at :
    (s : Bytes) (r to : Cells)
    → IsText s
    → length s < length to
    → strcpy to (string_at s r) ≡ some (string_at s (drop (suc (length s)) to))
unfolding strcpy
strcpy-string_at s r [] h k = absurd (omega arith)
strcpy-string_at [] r (x ∷ to) h k = refl
strcpy-string_at (c ∷ s) r (x ∷ to) h k =
    rw (==_ne c 0 (omega arith), strcpy-string_at s r to h.2 (omega arith))

strcpy_overrun :
    (s : Bytes) (r to : Cells) → IsText s → length to ≤ length s → strcpy to (string_at s r) ≡ none
unfolding strcpy
strcpy_overrun s r [] h k = refl
strcpy_overrun [] r (x ∷ to) h k = absurd (omega arith)
strcpy_overrun (c ∷ s) r (x ∷ to) h k =
    rw (==_ne c 0 (omega arith), strcpy_overrun s r to h.2 (omega arith))

-- Where the first string is followed by `free` more cells, `strcat` leaves the joined string there
-- and keeps the cells after it if the second string fits, and else writes beyond its object.
pub strcat_lem :
    (s t : Bytes) (free r : Cells)
    → IsText s
    → IsText t
    → strcat (string_at s free) (string_at t r) ≡ (
        if leb (length t) (length free)
        then some (string_at (s ++ t) (drop (length t) free))
        else none)
unfolding strcat
strcat_lem [] t free r hs ht = elim (Bool-cases (leb (length t) (length free))) [
  | inl fits ↦
      rw fits
        (strcpy-string_at t r (0 ∷ free) ht (omega (arith, leb→le (length t) (length free) fits)))
  | inr over ↦ rw over (strcpy_overrun t r (0 ∷ free) ht (ground arith))
]
strcat_lem (c ∷ s) t free r hs ht = elim (Bool-cases (leb (length t) (length free))) [
  | inl fits ↦ rw (==_ne c 0 (omega arith), strcat_lem s t free r hs.2 ht, fits)
  | inr over ↦ rw (==_ne c 0 (omega arith), strcat_lem s t free r hs.2 ht, over)
]

pad-replicate : (n : ℕ) (to : Cells) → n ≤ length to → pad n to ≡ some (replicate n 0 ++ drop n to)
unfolding pad
pad-replicate zero to h = refl
pad-replicate (suc n) [] h = absurd (omega arith)
pad-replicate (suc n) (x ∷ to) h = rw (pad-replicate n to (omega arith))

-- `strncpy` fills exactly `len` cells: with the first `len` bytes of the string, and NULs where the
-- string is shorter.
strncpy_lem :
    (to : Cells) (s : Bytes) (r : Cells) (len : ℕ)
    → IsText s
    → len ≤ length to
    → strncpy to (string_at s r) len
      ≡ some (take len s ++ (replicate (len - length s) 0 ++ drop len to))
unfolding strncpy
strncpy_lem to s r zero h k = ground arith
strncpy_lem [] s r (suc n) h k = absurd (omega arith)
strncpy_lem (x ∷ to) [] r (suc n) h k =
    let e : suc n - 0 ≡ suc n = omega arith in rw (e, pad-replicate n to (omega arith))
strncpy_lem (x ∷ to) (c ∷ s) r (suc n) h k =
    let e : suc n - suc (length s) ≡ n - length s = omega arith in
    rw (e, ==_ne c 0 (omega arith), strncpy_lem to s r n h.2 (omega arith))

strncat_copy-string_at :
    (t : Bytes) (r s : Cells) (n : ℕ)
    → IsText t
    → min (suc n) (length t) < length s
    → strncat_copy s (string_at t r) (suc n)
      ≡ some (string_at (take (suc n) t) (drop (suc (min (suc n) (length t))) s))
unfolding strncat_copy store
strncat_copy-string_at t r [] n ht k = absurd (omega arith)
strncat_copy-string_at [] r (x ∷ s) zero ht k = refl
strncat_copy-string_at [] r (x ∷ s) (suc n) ht k =
    let e : min (suc (suc n)) 0 ≡ 0 = omega arith in rw e
strncat_copy-string_at (c ∷ t) r (x ∷ []) zero ht k = absurd (omega arith)
strncat_copy-string_at (c ∷ t) r (x ∷ y ∷ s) zero ht k =
    let e : min 1 (suc (length t)) ≡ 1 = omega arith in rw (e, ==_ne c 0 (omega arith))
strncat_copy-string_at (c ∷ t) r (x ∷ s) (suc n) ht k =
    let e : min (suc (suc n)) (suc (length t)) ≡ suc (min (suc n) (length t)) = omega arith in
    rw (e, ==_ne c 0 (omega arith), strncat_copy-string_at t r s n ht.2 (omega arith))

-- `strncat` appends the first `len` bytes of the second string and a NUL, where they fit.
strncat_lem :
    (s t : Bytes) (free r : Cells) (n : ℕ)
    → IsText s
    → IsText t
    → min (suc n) (length t) ≤ length free
    → strncat (string_at s free) (string_at t r) (suc n)
      ≡ some (string_at (s ++ take (suc n) t) (drop (min (suc n) (length t)) free))
unfolding strncat strncat_end
strncat_lem s t free r n hs ht k = at_end s hs
  where
    at_end :
        (s : Bytes)
        → IsText s
        → strncat_end (string_at s free) (string_at t r) (suc n)
          ≡ some (string_at (s ++ take (suc n) t) (drop (min (suc n) (length t)) free))
    at_end [] h = strncat_copy-string_at t r (0 ∷ free) n ht (omega arith)
    at_end (c ∷ s) h = rw (==_ne c 0 (omega arith), at_end s h.2)

take-string_at : (s : Bytes) (r : Cells) → take (suc (length s)) (string_at s r) ≡ string_at s []
take-string_at [] r = refl
take-string_at (c ∷ s) r = ap (λ l. c ∷ l) (take-string_at s r)

-- `strlen` of a string is the count of its bytes, and `strdup` yields an equal string that fills
-- its object.
strdup_lem :
    (s : Bytes) (r : Cells)
    → IsText s
    → (strlen (string_at s r) ≡ some (length s)) × (strdup (string_at s r) ≡ some (string_at s []))
unfolding strdup
strdup_lem s r h = (strlen-string_at s r h, rw (strlen-string_at s r h) (rw (take-string_at s r)))

-- The first and the last place of a byte in a string, by recursion on the string.
abbrev pub index_of : Bytes → ℕ → Option ℕ
index_of [] ch = none
index_of (c ∷ s) ch = if c == ch then some 0 else Option.map suc (index_of s ch)

abbrev pub last_index_of : Bytes → ℕ → Option ℕ
last_index_of [] ch = none
last_index_of (c ∷ s) ch = elim (last_index_of s ch) [
  | some i ↦ some (suc i)
  | none ↦ if c == ch then some 0 else none
]

strchr-index_of :
    (s : Bytes) (r : Cells) (ch : ℕ)
    → IsText s
    → 0 < ch
    → strchr (string_at s r) ch ≡ some (index_of s ch)
unfolding strchr
strchr-index_of [] r ch h p = ground arith
strchr-index_of (c ∷ s) r ch h p =
    rw (==_ne c 0 (omega arith), strchr-index_of s r ch h.2 p) (ground arith)

abbrev shift : ℕ → Option ℕ → Option ℕ → Option ℕ
shift at none last = last
shift at (some i) last = some (at + i)

strrchr_loop-last_index_of :
    (s : Bytes) (r : Cells) (ch at : ℕ) (last : Option ℕ)
    → IsText s
    → 0 < ch
    → strrchr_loop (string_at s r) ch at last ≡ some (shift at (last_index_of s ch) last)
unfolding strrchr_loop
strrchr_loop-last_index_of [] r ch at last h p = ground arith
strrchr_loop-last_index_of (c ∷ s) r ch at last h p =
    rw
      (
        ==_ne c 0 (omega arith),
        strrchr_loop-last_index_of s r ch (suc at) (if c == ch then some at else last) h.2 p,
      )
      (ground arith)

-- For a byte other than NUL, `strchr` finds the first place of the byte in the string and `strrchr`
-- the last one, or a null pointer where it does not occur.
strchr_lem :
    (s : Bytes) (r : Cells) (ch : ℕ)
    → IsText s
    → 0 < ch
    → (strchr (string_at s r) ch ≡ some (index_of s ch))
      × (strrchr (string_at s r) ch ≡ some (last_index_of s ch))
unfolding strrchr
strchr_lem s r ch h p =
    (strchr-index_of s r ch h p, rw (strrchr_loop-last_index_of s r ch 0 none h p) (ground arith))
