-- ===== src/Tests/Encode.antt =====
-- The encodings of source/string.c at two bytes.
use ithildin.Base.{◌*◌, ◌≡◌, refl, false, some, [], ◌∷◌, ◌++◌, arith, ◌==◌, if◌then◌else◌, length}
use ithildin.Text.Case.{Bytes}
use ithildin.Text.Encode.{str_base_encode, str_base_decode, encode_loop, emit, base64_emap, run}
use ithildin.Text.Encode.Roundtrip.{str_base_decode-str_base_encode}

-- "hi" in base 64 is "aGk", and comes back with a byte behind it.
encode_hi : str_base_encode 3 6 (b'h' ∷ b'i' ∷ []) ≡ some (b'a' ∷ b'G' ∷ b'k' ∷ [])
unfolding str_base_encode encode_loop emit base64_emap run
encode_hi = refl

str_base_decode-str_base_encode_example :
    (out : Bytes) × (tail : Bytes) × (str_base_encode 3 6 (b'h' ∷ b'i' ∷ []) ≡ some out)
    × (str_base_decode 6 out ≡ ((b'h' ∷ b'i' ∷ []) ++ tail, false))
    × (length tail ≡ (if 6 * length out == 16 then 0 else 1))
str_base_decode-str_base_encode_example =
    str_base_decode-str_base_encode 3 6 (b'h' ∷ b'i' ∷ []) (omega arith) (omega arith) (omega arith)
      (omega arith)
