-- ===== src/Text/Split.antt =====
-- source/string.c: `ith_strsep`, and the loop of its callers that takes token after token.
use ithildin.Base.{
  ℕ, zero, suc, ◌+◌, ◌≤◌, ◌<◌, ◌≡◌, refl, ap, inl, inr, Bool, true, false, Option, none, some, List,
  [], ◌∷◌, ◌++◌, arith, ◌==◌, if◌then◌else◌, Bool-cases, length, All,
}
use ithildin.Text.Case.{Bytes}

-- The inner loop, over the delimiters.
unfoldable pub is_delim : Bytes → ℕ → Bool
is_delim [] c = false
is_delim (d ∷ delim) c = if c == d then true else is_delim delim c

-- The token, and what `*from` is left at: the text after the delimiter, or a null pointer.
strsep_loop : Bytes → Bytes → Bytes × Option Bytes
strsep_loop delim [] = ([], none)
strsep_loop delim (c ∷ s) =
    let (token, rest) = strsep_loop delim s in
    if is_delim delim c then ([], some s) else (c ∷ token, rest)

unfoldable pub strsep : Bytes → Option Bytes → Option (Bytes × Option Bytes)
unfolding strsep_loop
strsep delim none = none
strsep delim (some s) = some (strsep_loop delim s)

-- while ((token = strsep(&from, delim)) != NULL), the tokens in order; `none` is fuel run out.
unfoldable pub strsep_all : ℕ → Bytes → Option Bytes → Option (List Bytes)
strsep_all zero delim from = none
strsep_all (suc fuel) delim from = elim (strsep delim from) [
  | none ↦ some []
  | some (token, rest) ↦ elim (strsep_all fuel delim rest) [
    | none ↦ none
    | some tokens ↦ some (token ∷ tokens)
  ]
]

-- The delimiters of a text, in order.
abbrev pub delims_in : Bytes → Bytes → Bytes
delims_in delim [] = []
delims_in delim (c ∷ s) = if is_delim delim c then c ∷ delims_in delim s else delims_in delim s

-- Tokens with delimiters between them.
abbrev pub weave : List Bytes → Bytes → Bytes
weave [] ds = []
weave (t ∷ ts) [] = t
weave (t ∷ ts) (d ∷ ds) = t ++ (d ∷ weave ts ds)

abbrev pub IsFree : Bytes → Bytes → Type 0
IsFree delim token = All (λ c. is_delim delim c ≡ false) token

-- The tokens of a text by recursion on it.
abbrev prefix_first : ℕ → List Bytes → List Bytes
prefix_first c [] = []
prefix_first c (t ∷ ts) = (c ∷ t) ∷ ts

tokens : Bytes → Bytes → List Bytes
tokens delim [] = [] ∷ []
tokens delim (c ∷ s) =
    if is_delim delim c then [] ∷ tokens delim s else prefix_first c (tokens delim s)

abbrev tokens_from : Bytes → Option Bytes → List Bytes
tokens_from delim none = []
tokens_from delim (some s) = tokens delim s

abbrev rest_length : Option Bytes → ℕ
rest_length none = 0
rest_length (some s) = suc (length s)

strsep_loop-tokens :
    (delim s : Bytes)
    → (tokens delim s ≡ (strsep_loop delim s).0 ∷ tokens_from delim (strsep_loop delim s).1)
      × (rest_length (strsep_loop delim s).1 ≤ length s)
unfolding strsep_loop tokens
strsep_loop-tokens delim [] = (refl, omega arith)
strsep_loop-tokens delim (c ∷ s) = ground (arith, strsep_loop-tokens delim s)

strsep_all-tokens :
    (fuel : ℕ) (delim : Bytes) (from : Option Bytes)
    → rest_length from < fuel
    → strsep_all fuel delim from ≡ some (tokens_from delim from)
unfolding strsep_all strsep
strsep_all-tokens zero delim from h = absurd (omega arith)
strsep_all-tokens (suc fuel) delim none h = refl
strsep_all-tokens (suc fuel) delim (some s) h =
    let (e, shorter) = strsep_loop-tokens delim s in
    rw (strsep_all-tokens fuel delim (strsep_loop delim s).1 (omega arith), e)

tokens-ne-nil : (delim s : Bytes) → (t : Bytes) × (ts : List Bytes) × (tokens delim s ≡ t ∷ ts)
tokens-ne-nil delim s = (_, _, (strsep_loop-tokens delim s).0)

prefix_first-IsFree :
    (delim : Bytes) (c : ℕ) (ts : List Bytes)
    → is_delim delim c ≡ false
    → All (IsFree delim) ts
    → All (IsFree delim) (prefix_first c ts)
prefix_first-IsFree delim c [] e h = tt
prefix_first-IsFree delim c (t ∷ ts) e h = ((e, h.0), h.1)

weave-prefix_first :
    (c : ℕ) (t : Bytes) (ts : List Bytes) (ds : Bytes)
    → weave (prefix_first c (t ∷ ts)) ds ≡ c ∷ weave (t ∷ ts) ds
weave-prefix_first c t ts [] = refl
weave-prefix_first c t ts (d ∷ ds) = refl

tokens-IsFree : (delim s : Bytes) → All (IsFree delim) (tokens delim s)
unfolding tokens
tokens-IsFree delim [] = (tt, tt)
tokens-IsFree delim (c ∷ s) = elim (Bool-cases (is_delim delim c)) [
  | inl e ↦ rw e (tt, tokens-IsFree delim s)
  | inr e ↦ rw e (prefix_first-IsFree delim c (tokens delim s) e (tokens-IsFree delim s))
]

weave-tokens : (delim s : Bytes) → weave (tokens delim s) (delims_in delim s) ≡ s
unfolding tokens
weave-tokens delim [] = refl
weave-tokens delim (c ∷ s) =
    let (t, ts, e) = tokens-ne-nil delim s in
    let ih = weave-tokens delim s in
    elim (Bool-cases (is_delim delim c)) [
      | inl d ↦ rw d (ap (λ u. c ∷ u) ih)
      | inr d ↦ rw (d, e, weave-prefix_first c t ts) (ap (λ u. c ∷ u) (rw e at ih))
    ]

-- Called until it returns a null pointer, `strsep` yields tokens without delimiters, which with the
-- delimiters of the text between them give the text back; one call for each byte and two more
-- are enough.
pub strsep_all_lem :
    (delim s : Bytes) (fuel : ℕ)
    → length s + 1 < fuel
    → (ts : List Bytes) × (strsep_all fuel delim (some s) ≡ some ts)
      × All (IsFree delim) ts
      × (weave ts (delims_in delim s) ≡ s)
strsep_all_lem delim s fuel h = (
  tokens delim s,
  strsep_all-tokens fuel delim (some s) (omega arith),
  tokens-IsFree delim s,
  weave-tokens delim s,
)
