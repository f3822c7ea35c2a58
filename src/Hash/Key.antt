-- ===== src/Hash/Key.antt =====
-- source/hash.c: `mix` and `hash_get_key_hash`. `uint32_t` arithmetic wraps at 2 ^ 32.
use ithildin.Base.{
  ℕ, zero, suc, ◌+◌, ◌-◌, ◌*◌, ◌/◌, ◌%◌, ◌^◌, ◌≤◌, ◌<◌, bit_and, bit_xor, ◌≡◌, ◌≢◌, Bool, arith,
  ltb, leb, if◌then◌else◌, u32,
}
use ithildin.Base.Bits.{bit_and-le}
use ithildin.Text.Case.{tolower}

-- The bytes of the address space, and strlen of the C library, which takes the bytes and an address.
pub record Memory : Type 0 where
  pub byte : ℕ → ℕ
  pub strlen : (ℕ → ℕ) → ℕ → ℕ

abbrev pub length_at : Memory → ℕ → ℕ
length_at memory at = memory.strlen memory.byte at

-- What the C library says of strlen: it reads on to the first NUL, however far that is.
pub record IsStrlen (memory : Memory) (at : ℕ) : Type 0 where
  pub ends : memory.byte (at + length_at memory at) ≡ 0
  pub before : (i : ℕ) → i < length_at memory at → memory.byte (at + i) ≢ 0

-- `HASH_FL_NOCASE`, `HASH_FL_STRING`, `HASH_FL_INSERTTAIL`
pub record Flags : Type 0 where
  pub nocase : Bool
  pub string : Bool
  pub insert_tail : Bool

abbrev pub add32 : ℕ → ℕ → ℕ
add32 a b = (a + b) % u32

abbrev sub32 : ℕ → ℕ → ℕ
sub32 a b = (a + u32 - b) % u32

abbrev pub shl32 : ℕ → ℕ → ℕ
shl32 a k = a * 2 ^ k % u32

abbrev shr32 : ℕ → ℕ → ℕ
shr32 a k = a / 2 ^ k

abbrev pub State : Type 0
State = ℕ × ℕ × ℕ

-- x -= y; x -= z; x ^= (z >> k);  and the same with `<<`
mix_right : ℕ → ℕ → ℕ → ℕ → ℕ
mix_right x y z k = bit_xor (sub32 (sub32 x y) z) (shr32 z k)

mix_left : ℕ → ℕ → ℕ → ℕ → ℕ
mix_left x y z k = bit_xor (sub32 (sub32 x y) z) (shl32 z k)

-- One line of three statements with shifts 13, 8, 13 and so on.
mix_round : ℕ → ℕ → ℕ → State → State
unfolding mix_right mix_left
mix_round i j k (a, b, c) =
    let a' = mix_right a b c i in
    let b' = mix_left b c a' j in let c' = mix_right c a' b' k in (a', b', c')

unfoldable pub mix : State → State
unfolding mix_round
mix s = mix_round 3 10 15 (mix_round 12 16 5 (mix_round 13 8 13 s))

-- Four bytes, the lowest first, read at offsets from `at` by `byte`.
unfoldable pub word : (ℕ → ℕ) → ℕ → ℕ → ℕ → ℕ → ℕ
word byte i j k l =
    add32 (add32 (add32 (byte i) (shl32 (byte j) 8)) (shl32 (byte k) 16)) (shl32 (byte l) 24)

-- The body of `while (len >= 12)`, at the block that begins at `at`: byte 4 is not read, and byte
-- 12 belongs to the next block.
unfoldable pub block : (ℕ → ℕ) → ℕ → State → State
unfolding word mix
block byte at (a, b, c) = mix (
  add32 a (word byte at (at + 1) (at + 2) (at + 3)),
  add32 b (word byte (at + 5) (at + 6) (at + 7) (at + 8)),
  add32 c (word byte (at + 9) (at + 10) (at + 11) (at + 12)),
)

-- `n` rounds of the loop from `at`.
unfoldable pub blocks : (ℕ → ℕ) → ℕ → ℕ → State → State
unfolding block
blocks byte zero at s = s
blocks byte (suc n) at s = blocks byte n (at + 12) (block byte at s)

-- One case of the switch, which falls through from every larger `len`.
unfoldable pub case_from : ℕ → ℕ → ℕ → ℕ
case_from len n v = if leb n len then v else 0

unfoldable pub last_bytes : (ℕ → ℕ) → ℕ → ℕ → State → State
unfolding case_from
last_bytes byte len at (a, b, c) =
    let c11 = add32 c (case_from len 11 (shl32 (byte (at + 10)) 24)) in
    let c10 = add32 c11 (case_from len 10 (shl32 (byte (at + 9)) 16)) in
    let c9 = add32 c10 (case_from len 9 (shl32 (byte (at + 8)) 8)) in
    let b8 = add32 b (case_from len 8 (shl32 (byte (at + 7)) 24)) in
    let b7 = add32 b8 (case_from len 7 (shl32 (byte (at + 6)) 16)) in
    let b6 = add32 b7 (case_from len 6 (shl32 (byte (at + 5)) 8)) in
    let b5 = add32 b6 (case_from len 5 (byte (at + 4))) in
    let b4 = add32 b5 (case_from len 4 (shl32 (byte (at + 3)) 24)) in
    let b3 = add32 b4 (case_from len 3 (shl32 (byte (at + 2)) 16)) in
    let b2 = add32 b3 (case_from len 2 (shl32 (byte (at + 1)) 8)) in
    let b1 = add32 b2 (case_from len 1 (byte at)) in (a, b1, c9)

-- The length that is hashed, of a key whose strlen is `length`: the whole string is measured, and
-- the result, a `uint32_t`, cut to `keylen`.
unfoldable pub key_length : Flags → ℕ → ℕ → ℕ
key_length flags keylen length =
    if flags.string then (if ltb keylen (length % u32) then keylen else length % u32) else keylen

abbrev golden_ratio : ℕ
golden_ratio = 0x9e37_79b9

abbrev init_value : ℕ
init_value = 0xb33f_f00d

abbrev pub fold_byte : Flags → (ℕ → ℕ) → ℕ → ℕ
fold_byte flags byte i = if flags.nocase then tolower (byte i) else byte i

unfoldable pub third : State → ℕ
third (a, b, c) = c

-- The switch for the bytes after the last whole block, and the last `mix`.
unfoldable pub finish : (ℕ → ℕ) → ℕ → State → ℕ
finish read length (a, b, c) =
    third (mix (last_bytes read (length % 12) (12 * (length / 12)) (a, b, add32 c length)))

-- The hash of the bytes at `byte`, before it is cut to the table. The two copies of the code, with
-- and without `tolower`, are one function of the bytes as they are read.
unfoldable pub full_hash : Flags → ℕ → ℕ → (ℕ → ℕ) → ℕ
unfolding finish
full_hash flags keylen strlen byte =
    let length = key_length flags keylen strlen in
    let read = fold_byte flags byte in
    finish read length (blocks read (length / 12) 0 (golden_ratio, golden_ratio, init_value))

-- The bucket: `c & (table->size - 1)`.
unfoldable pub bucket_of : ℕ → ℕ → ℕ
bucket_of size hash = bit_and hash (sub32 size 1)

pub bucket_of-lt : (size hash : ℕ) → 0 < size → size ≤ u32 → bucket_of size hash < size
unfolding bucket_of
bucket_of-lt size hash h k = omega (arith, bit_and-le hash (sub32 size 1))
