-- ===== src/Channel/Modes/Types.antt =====
-- What the value of CHANMODES holds.
use ithildin.Base.{
  ℕ, ◌<◌, ◌≡◌, sym, subst, ◌∙◌, ◌≢◌, Bool, true, false, Bool-cases, inl, inr, if◌then◌else◌, ◌&&◌,
  not, [], ◌∷◌, ◌++◌, arith, ◌==◌, bit_and,
}
use ithildin.Text.Case.{Bytes}
use ithildin.Base.Bits.{bit_and-zero}
use ithildin.Channel.Modes.{Chanmode, of_type, without_last, types}
use ithildin.Channel.Modes.Lists.{contains, contains-append, contains-collect}

without_last-absent :
    (c : ℕ) (s : Bytes) → contains c s ≡ false → contains c (without_last s) ≡ false
unfolding contains without_last
without_last-absent c [] h = h
without_last-absent c (d ∷ []) h = ground arith
without_last-absent c (d ∷ e ∷ s) h =
    let rest = without_last-absent c (e ∷ s) (ground (arith, h)) in ground (arith, h, rest)

append-absent :
    (c : ℕ) (s t : Bytes)
    → contains c s ≡ false
    → contains c t ≡ false
    → contains c (s ++ t) ≡ false
append-absent c s t h k = contains-append c s t ∙ rw (h, k) (ground arith)

if_absent :
    (c : ℕ) (b : Bool) (s t : Bytes)
    → contains c s ≡ false
    → contains c t ≡ false
    → contains c (if b then s else t) ≡ false
if_absent c b s t h k = elim (Bool-cases b) [ inl e ↦ rw e h | inr e ↦ rw e k ]

module _ (modes : ℕ → Chanmode) (c : ℕ) (own : (i : ℕ) → (modes i).flags ≢ 0 → (modes i).mode ≡ i)
    (small : c < 256) (free : (modes c).avail ≡ true) (no_comma : c ≢ b',') where
  unset :
      (i flag : ℕ)
      → (modes i).flags ≡ 0
      → (not (modes i).avail && not (bit_and (modes i).flags flag == 0)) ≢ true
  unset i flag z t =
      let e : bit_and (modes i).flags flag ≡ 0 =
        subst (λ n. bit_and n flag ≡ 0) (sym z) (bit_and-zero flag) in
      ground (arith, e, t)

  of_type-absent : (flag : ℕ) → contains c (of_type flag modes) ≡ false
  unfolding of_type contains
  of_type-absent flag =
      append-absent c _ (b',' ∷ [])
        (contains-collect (λ i. not (modes i).avail && not (bit_and (modes i).flags flag == 0))
            (λ i. (modes i).mode) 256 c (λ i t. own i (λ z. unset i flag z t))
          ∙ rw free (ground arith))
        (ground arith)

  -- An available mode, other than the comma that separates the types, is not there.
  pub types-absent : contains c (types modes) ≡ false
  unfolding types
  types-absent =
      let few = without_last-absent c _ (
        append-absent c _ _ (of_type-absent 0x01) (
          append-absent c _ _ (of_type-absent 0x02) (
            append-absent c _ _ (of_type-absent 0x04)
              (append-absent c _ _ (of_type-absent 0x08) (of_type-absent 0x10))))) in
      if_absent c _ _ _ (without_last-absent c _ few) few
