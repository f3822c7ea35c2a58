-- ===== src/Text/Address.antt =====
-- source/string.c: `ipmatch`. get_address_type and inet_pton are parameters, and so is strtol. The
-- server is built with INET6.
pub mod Matches
pub mod Prefix
use ithildin.Base.{
  ℕ, zero, suc, ◌-◌, ◌*◌, ◌/◌, ◌%◌, ◌^◌, bit_and, Bool, true, false, Option, none, some, ltb, ◌==◌,
  if◌then◌else◌, get_or, set, take, replicate, ℤ, pos, negsuc,
}
use ithildin.Text.Case.{Bytes}
use ithildin.Text.Time.{cut, str_conv_int}

-- PF_INET, PF_INET6 and what is neither.
pub data Family : Type 0 where
  inet inet6 unknown : Family

-- IPADDR_SIZE
abbrev pub ipaddr_size : ℕ
ipaddr_size = 16

-- The bytes of an address, and the bits.
abbrev pub alen : Family → ℕ
alen inet6 = 16
alen _ = 4

abbrev pub full_mask : Family → ℕ
full_mask inet6 = 128
full_mask _ = 32

-- The loop that sets the mask, for `i` bits from the left; each round takes at least one off.
unfoldable pub walk : ℕ → ℕ → Bytes → Bytes
walk zero i bitmask = bitmask
walk (suc fuel) i bitmask =
    let part = i % 8 in
    let byte = 255 * 2 ^ (if part == 0 then 0 else 8 - part) % 256 in
    let rest = walk fuel (i - (if part == 0 then 8 else part)) (set bitmask ((i - 1) / 8) byte) in
    if i == 0 then bitmask else rest

abbrev pub clamp : Family → ℤ → ℕ
clamp family (negsuc n) = full_mask family
clamp family (pos imask) =
    if imask == 0
    then full_mask family
    else if ltb (full_mask family) imask
    then full_mask family
    else imask

-- The loop over `n` bytes of the two addresses and the mask, from place `i` on.
unfoldable pub same_bytes : ℕ → ℕ → Bytes → Bytes → Bytes → Bool
same_bytes zero i bitmask bwild bstr = true
same_bytes (suc n) i bitmask bwild bstr =
    let m = get_or bitmask i 0 in
    let rest = same_bytes n (suc i) bitmask bwild bstr in
    if bit_and (get_or bwild i 0) m == bit_and (get_or bstr i 0) m then rest else false

-- IPADDR_MAXLEN
abbrev ipaddr_maxlen : ℕ
ipaddr_maxlen = 39

module _ (get_address_type : Bytes → Family) (inet_pton : Family → Bytes → Option Bytes)
    (strtol : Bytes → Option ℤ) where
  -- The address part and the mask of an address of a family, against a string.
  unfoldable pub match_masked : Family → Bytes → Option Bytes → Bytes → Bool
  unfolding same_bytes walk str_conv_int
  match_masked unknown addr mask str = false
  match_masked family addr mask str =
      let bits = elim mask as (λ m. Bytes) [
        | none ↦ replicate ipaddr_size 255
        | some m ↦
            let imask = clamp family (str_conv_int strtol m (pos 0)) in
            walk imask imask (replicate ipaddr_size 0)
      ] in
      elim (inet_pton family addr) [
        | none ↦ false
        | some bwild ↦ elim (inet_pton family str) [
          | none ↦ false
          | some bstr ↦ same_bytes (alen family) 0 bits bwild bstr
        ]
      ]

  unfoldable pub ipmatch : Bytes → Bytes → Bool
  unfolding match_masked cut
  ipmatch wild str = elim (cut b'/' wild) [
    | none ↦
        let addr = take ipaddr_maxlen wild in match_masked (get_address_type addr) addr none str
    | some (part, mask) ↦
        let addr = take ipaddr_maxlen part in
        match_masked (get_address_type addr) addr (some mask) str
  ]
