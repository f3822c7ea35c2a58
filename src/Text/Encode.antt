-- ===== src/Text/Encode.antt =====
-- source/string.c: `str_base_encode` and `str_base_decode` with their tables. A type is the
-- number of bits of a digit, from 1 to 6. The byte behind the source of a decoding is taken to be
-- NUL.
pub mod Read
pub mod Roundtrip
pub mod Shift
pub mod Stream
pub mod Words
pub mod Write
use ithildin.Base.{
  ℕ, zero, suc, ◌+◌, ◌-◌, ◌*◌, ◌/◌, ◌%◌, ◌^◌, bit_and, bit_xor, Bool, false, ◌||◌, not, Option,
  none, some, List, [], ◌∷◌, ◌++◌, map, ltb, leb, ◌==◌, if◌then◌else◌, u32, get_or, replicate, ℤ,
  pos, negsuc, ◌-ℤ◌, is_zero,
}
use ithildin.Text.Case.{Bytes, peek}

-- The numbers from `start` on.
unfoldable pub run : ℕ → ℕ → List ℕ
run start zero = []
run start (suc n) = start ∷ run (suc start) n

unfoldable pub base_emap : Bytes
unfolding run
base_emap = run b'0' 10 ++ run b'a' 22

unfoldable pub base64_emap : Bytes
unfolding run
base64_emap = run b'A' 26 ++ (run b'a' 26 ++ (run b'0' 10 ++ (b'+' ∷ b'/' ∷ [])))

abbrev pub skip : ℤ
skip = negsuc 1

abbrev pub bad : ℤ
bad = negsuc 0

-- The tables as the compiler reads them: where a comma is missing between -1 and -1 stands -2,
-- and the cell that is missing at the end is 0.
unfoldable pub base_dmap : List ℤ
unfolding run
base_dmap =
    replicate 48 bad
    ++ (map pos (run 0 10)
        ++ (replicate 7 bad
            ++ (map pos (run 10 22)
                ++ (replicate 10 bad
                    ++ (map pos (run 10 22) ++ (skip ∷ (replicate 135 bad ++ (pos 0 ∷ []))))))))

unfoldable pub base64_dmap : List ℤ
unfolding run
base64_dmap =
    replicate 9 bad
    ++ (replicate 5 skip
        ++ (replicate 18 bad
            ++ (skip
                ∷ (replicate 10 bad
                    ++ (pos 62
                        ∷ (replicate 3 bad
                            ++ (pos 63
                                ∷ (map pos (run 52 10)
                                    ++ (replicate 3 bad
                                        ++ (skip
                                            ∷ (replicate 3 bad
                                                ++ (map pos (run 0 26)
                                                    ++ (replicate 6 bad
                                                        ++ (map pos (run 26 26)
                                                            ++ (replicate 6 bad
                                                            ++ (skip
                                                            ∷ (replicate 125 bad
                                                            ++ (pos 0 ∷ []))))))))))))))))))

abbrev pub emap : ℕ → Bytes
emap type = if type == 6 then base64_emap else base_emap

abbrev pub dmap : ℕ → List ℤ
dmap type = if type == 6 then base64_dmap else base_dmap

-- while (bits >= type): the characters, the rest of the chunk and its bits. `rounds` bounds the
-- loop; one per bit is enough.
unfoldable pub emit : ℕ → ℕ → ℕ → ℕ → Bytes × ℕ × ℕ
emit zero type chunk bits = ([], chunk, bits)
emit (suc rounds) type chunk bits =
    let left = bits - type in
    let (more, chunk', bits') = emit rounds type (bit_and chunk (255 / 2 ^ (8 - left))) left in
    if leb type bits
    then (get_or (emap type) (chunk / 2 ^ left) 0 ∷ more, chunk', bits')
    else ([], chunk, bits)

-- None is fuel run out.
unfoldable pub encode_loop : ℕ → ℕ → ℕ → ℕ → Bytes → Option Bytes
unfolding emit
encode_loop zero type chunk bits src = none
encode_loop (suc fuel) type chunk bits [] =
    some (if bits == 0 then [] else get_or (emap type) (chunk * 2 ^ (type - bits) % u32) 0 ∷ [])
encode_loop (suc fuel) type chunk bits (c ∷ src) =
    let read = ltb bits type in
    let chunk1 = if read then (chunk * 256 % u32 + c) % u32 else chunk in
    let bits1 = if read then bits + 8 else bits in
    let (out, chunk2, bits2) = emit bits1 type chunk1 bits1 in
    elim (encode_loop fuel type chunk2 bits2 (if read then src else c ∷ src)) [
      | none ↦ none
      | some more ↦ some (out ++ more)
    ]

-- The string that is written; its length is what the function returns.
unfoldable pub str_base_encode : ℕ → ℕ → Bytes → Option Bytes
unfolding encode_loop
str_base_encode fuel type src = encode_loop fuel type 0 0 src

-- The bytes that are written, and whether errno is EINVAL at the end.
unfoldable pub decode_loop : ℕ → ℕ → ℕ → Bool → Bytes → Bytes × Bool
decode_loop type chunk bits errno [] = (if bits == 0 then [] else chunk % 256 ∷ [], errno)
decode_loop type chunk bits errno (c ∷ src) =
    let skipped =
      decode_loop type chunk bits
        (errno || not (is_zero (get_or (dmap type) (peek src) bad -ℤ skip))) src in
    elim (get_or (dmap type) c bad) [
      | negsuc n ↦ skipped
      | pos d ↦
          let chunk' = (chunk * 2 ^ type % u32 + d) % u32 in
          let bits' = bits + type in
          let over = bits' - 8 in
          let short = decode_loop type chunk' bits' errno src in
          let long = decode_loop type (bit_xor chunk' (255 * 2 ^ over)) over errno src in
          if leb (2 ^ type) d
          then skipped
          else if leb 8 bits'
          then (chunk' / 2 ^ over % 256 ∷ long.0, long.1)
          else short
    ]

unfoldable pub str_base_decode : ℕ → Bytes → Bytes × Bool
unfolding decode_loop
str_base_decode type src = decode_loop type 0 0 false src
