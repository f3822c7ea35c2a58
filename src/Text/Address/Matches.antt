-- ===== src/Text/Address/Matches.antt =====
-- What ipmatch answers.
use ithildin.Base.{
  ℕ, zero, suc, ◌%◌, ◌^◌, ◌||◌, ltb, ◌==◌, if◌then◌else◌, ◌-◌, ◌*◌, ◌≤◌, ◌<◌, ◌≡◌, refl, sym, ap,
  ◌∙◌, subst, ◌⊎◌, inl, inr, Option, none, some, [], ◌∷◌, arith, Option-cases, length, get_or, take,
  replicate, All, ℤ, pos, negsuc,
}
use ithildin.Text.Case.{Bytes}
use ithildin.Text.Time.{cut, of_u32, as_int, str_conv_int}
use ithildin.Text.Address.{
  Family, inet, inet6, unknown, alen, full_mask, walk, clamp, ipaddr_maxlen, match_masked, ipmatch,
  same_bytes,
}
use ithildin.Text.Address.Prefix.{same_prefix, mask_of, same_bytes-same_prefix}

-- A pattern in front of the first slash and behind it.
abbrev pub parts_of : Bytes → Bytes × Option Bytes
parts_of wild = elim (cut b'/' wild) [ none ↦ (wild, none) | some (part, mask) ↦ (part, some mask) ]

-- The bytes of an address of a family.
unfoldable pub IsAddress : Family → Bytes → Type 0
IsAddress family a = (length a ≡ alen family) × All (λ c. c < 256) a

get_or-byte : (xs : Bytes) (j : ℕ) → All (λ c. c < 256) xs → get_or xs j 0 < 256
get_or-byte [] j a = omega arith
get_or-byte (x ∷ xs) zero a = a.0
get_or-byte (x ∷ xs) (suc j) a = get_or-byte xs j a.1

-- The lowest 32 bits of a long.
abbrev low_bits : ℤ → ℕ
low_bits (pos n) = n % 2 ^ 32
low_bits (negsuc n) = 2 ^ 32 - 1 - n % 2 ^ 32

-- The bits that count, by the number behind the slash: where its lowest 32 bits, without a sign,
-- make 0 or more bits than an address has, all of them.
abbrev pub bits_of : Family → ℤ → ℕ
bits_of family z =
    let n = low_bits z in if n == 0 || ltb (full_mask family) n then full_mask family else n

clamp-of_u32 :
    (family : Family) (n : ℕ)
    → clamp family (of_u32 n) ≡ (if n == 0 || ltb (full_mask family) n then full_mask family else n)
unfolding of_u32
clamp-of_u32 inet n = ground arith
clamp-of_u32 inet6 n = ground arith
clamp-of_u32 unknown n = ground arith

clamp-as_int : (family : Family) (z : ℤ) → clamp family (as_int z) ≡ bits_of family z
unfolding as_int
clamp-as_int family (pos n) = clamp-of_u32 family (n % 2 ^ 32)
clamp-as_int family (negsuc n) = clamp-of_u32 family (2 ^ 32 - 1 - n % 2 ^ 32)

clamp-le : (family : Family) (imask : ℤ) → clamp family imask ≤ 128
clamp-le inet (pos n) = ground arith
clamp-le inet (negsuc n) = omega arith
clamp-le inet6 (pos n) = ground arith
clamp-le inet6 (negsuc n) = omega arith
clamp-le unknown (pos n) = ground arith
clamp-le unknown (negsuc n) = omega arith

module _ (get_address_type : Bytes → Family) (inet_pton : Family → Bytes → Option Bytes)
    (strtol : Bytes → Option ℤ) where
  -- The bits that count: all 128 that an address can have, where there is no mask.
  abbrev pub prefix_length : Family → Option Bytes → ℕ
  prefix_length family none = 128
  prefix_length family (some mask) = elim (strtol mask) [
    | none ↦ full_mask family
    | some z ↦ bits_of family z
  ]

  clamp-prefix_length :
      (family : Family) (mask : Bytes)
      → clamp family (str_conv_int strtol mask (pos 0)) ≡ prefix_length family (some mask)
  unfolding str_conv_int
  clamp-prefix_length family mask = elim (Option-cases (strtol mask)) [
    | inl e ↦ rw (prefix_length, e, str_conv_int) refl
    | inr (z, e) ↦ rw (prefix_length, e, str_conv_int) (clamp-as_int family z)
  ]

  whole_mask : mask_of 128 ≡ replicate 16 255
  unfolding walk
  whole_mask = refl

  same_addresses :
      (family : Family) (n : ℕ) (bwild bstr : Bytes)
      → n ≤ 128
      → IsAddress family bwild
      → IsAddress family bstr
      → same_bytes (alen family) 0 (mask_of n) bwild bstr ≡ same_prefix n bwild bstr
  unfolding IsAddress
  same_addresses family n bwild bstr h v w =
      let few : (f : Family) → alen f ≤ 16 = size in
      let from_start : n - 8 * 0 ≡ n = omega arith in
      ap (λ m. same_bytes m 0 (mask_of n) bwild bstr) (sym v.0)
      ∙ same_bytes-same_prefix n 0 [] [] bwild bstr bwild bstr h (omega (arith, v.0, few family))
          (v.0 ∙ sym w.0) (refl, refl) (refl, refl) (λ j. get_or-byte bwild j v.1)
          (λ j. get_or-byte bstr j w.1)
      ∙ ap (λ n. same_prefix n bwild bstr) from_start
    where
      size : (f : Family) → alen f ≤ 16
      size inet = omega arith
      size inet6 = omega arith
      size unknown = omega arith

  match_masked-same_prefix :
      (family : Family) (addr : Bytes) (mask : Option Bytes) (str bwild bstr : Bytes)
      → (family ≡ inet) ⊎ (family ≡ inet6)
      → inet_pton family addr ≡ some bwild
      → inet_pton family str ≡ some bstr
      → IsAddress family bwild
      → IsAddress family bstr
      → match_masked get_address_type inet_pton strtol family addr mask str
        ≡ same_prefix (prefix_length family mask) bwild bstr
  unfolding match_masked
  match_masked-same_prefix inet addr none str bwild bstr f e g v w =
      rw (match_masked, e, g)
        (ap (λ m. same_bytes 4 0 m bwild bstr) (sym whole_mask)
          ∙ same_addresses inet 128 bwild bstr (omega arith) v w)
  match_masked-same_prefix inet addr (some mask) str bwild bstr f e g v w =
      let n = clamp inet (str_conv_int strtol mask (pos 0)) in
      let found : match_masked get_address_type inet_pton strtol inet addr (some mask) str
          ≡ same_prefix n bwild bstr =
        rw (match_masked, e, g)
          (same_addresses inet n bwild bstr (clamp-le inet (str_conv_int strtol mask (pos 0))) v
            w) in
      found ∙ ap (λ n. same_prefix n bwild bstr) (clamp-prefix_length inet mask)
  match_masked-same_prefix inet6 addr none str bwild bstr f e g v w =
      rw (match_masked, e, g)
        (ap (λ m. same_bytes 16 0 m bwild bstr) (sym whole_mask)
          ∙ same_addresses inet6 128 bwild bstr (omega arith) v w)
  match_masked-same_prefix inet6 addr (some mask) str bwild bstr f e g v w =
      let n = clamp inet6 (str_conv_int strtol mask (pos 0)) in
      let found : match_masked get_address_type inet_pton strtol inet6 addr (some mask) str
          ≡ same_prefix n bwild bstr =
        rw (match_masked, e, g)
          (same_addresses inet6 n bwild bstr (clamp-le inet6 (str_conv_int strtol mask (pos 0))) v
            w) in
      found ∙ ap (λ n. same_prefix n bwild bstr) (clamp-prefix_length inet6 mask)
  match_masked-same_prefix unknown addr mask str bwild bstr f e g v w =
      absurd (elim f [ inl p ↦ cc | inr p ↦ cc ])

  -- Where the part of the pattern in front of a slash, cut to 39 bytes, and the string are
  -- addresses of one family, ipmatch answers whether their first bits are the same: as many as the
  -- lowest 32 bits of the number behind the slash say, or all of them, where there is no slash, or
  -- where these make 0 or more bits than an address has, or where strtol sets errno.
  pub ipmatch-same_prefix :
      (family : Family) (wild str bwild bstr : Bytes)
      → let addr = take ipaddr_maxlen (parts_of wild).0 in
        get_address_type addr ≡ family
        → (family ≡ inet) ⊎ (family ≡ inet6)
        → inet_pton family addr ≡ some bwild
        → inet_pton family str ≡ some bstr
        → IsAddress family bwild
        → IsAddress family bstr
        → ipmatch get_address_type inet_pton strtol wild str
          ≡ same_prefix (prefix_length family (parts_of wild).1) bwild bstr
  unfolding ipmatch
  ipmatch-same_prefix family wild str bwild bstr t f e g v w = elim (Option-cases (cut b'/' wild)) [
    | inl c ↦
        let parts : parts_of wild ≡ (wild, none) = rw (parts_of, c) in
        let t' = subst (λ p. get_address_type (take ipaddr_maxlen p.0) ≡ family) parts t in
        let e' = subst (λ p. inet_pton family (take ipaddr_maxlen p.0) ≡ some bwild) parts e in
        let found : ipmatch get_address_type inet_pton strtol wild str
            ≡ same_prefix 128 bwild bstr =
          rw (ipmatch, c, t')
            (match_masked-same_prefix family (take ipaddr_maxlen wild) none str bwild bstr f e' g v
              w) in
        found ∙ ap (λ p. same_prefix (prefix_length family p.1) bwild bstr) (sym parts)
    | inr ((part, mask), c) ↦
        let parts : parts_of wild ≡ (part, some mask) = rw (parts_of, c) in
        let t' = subst (λ p. get_address_type (take ipaddr_maxlen p.0) ≡ family) parts t in
        let e' = subst (λ p. inet_pton family (take ipaddr_maxlen p.0) ≡ some bwild) parts e in
        let found : ipmatch get_address_type inet_pton strtol wild str
            ≡ same_prefix (prefix_length family (some mask)) bwild bstr =
          rw (ipmatch, c, t')
            (match_masked-same_prefix family (take ipaddr_maxlen part) (some mask) str bwild bstr f
              e' g v w) in
        found ∙ ap (λ p. same_prefix (prefix_length family p.1) bwild bstr) (sym parts)
  ]
