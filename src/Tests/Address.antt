-- ===== src/Tests/Address.antt =====
-- ipmatch of "1/24", where every string is read as the address 1.2.3.4 and every number as
-- 2 ^ 32 + 24, which an int cuts to 24.
use ithildin.Base.{◌+◌, ◌^◌, ◌≡◌, refl, inl, some, [], ◌∷◌, arith, pos}
use ithildin.Text.Case.{Bytes}
use ithildin.Text.Time.{cut, str_conv_int, as_int, of_u32}
use ithildin.Text.Address.{inet, ipmatch}
use ithildin.Text.Address.Prefix.{same_prefix}
use ithildin.Text.Address.Matches.{IsAddress, ipmatch-same_prefix}

abbrev address : Bytes
address = 1 ∷ 2 ∷ 3 ∷ 4 ∷ []

abbrev one_network : Bytes
one_network = b'1' ∷ b'/' ∷ b'2' ∷ b'4' ∷ []

address-IsAddress : IsAddress inet address
unfolding IsAddress
address-IsAddress = (refl, omega arith)

ipmatch-same_prefix_example :
    ipmatch
      (λ s. inet)
      (λ f s. some address)
      (λ s. some (pos (2 ^ 32 + 24)))
      one_network
      (b'1' ∷ [])
    ≡ same_prefix 24 address address
unfolding cut str_conv_int as_int of_u32
ipmatch-same_prefix_example =
    ipmatch-same_prefix (λ s. inet) (λ f s. some address) (λ s. some (pos (2 ^ 32 + 24))) inet
      one_network (b'1' ∷ []) address address refl (inl refl) refl refl address-IsAddress
      address-IsAddress
