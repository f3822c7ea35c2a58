-- ===== src/Hash/Reads.antt =====
-- The bytes of a key that its hash depends on.
use ithildin.Base.{
  ℕ, zero, suc, ◌+◌, ◌-◌, ◌*◌, ◌/◌, ◌%◌, ◌≤◌, ◌<◌, ◌≡◌, refl, ap, ◌∙◌, subst, ◌≢◌, ◌⊎◌, inl, inr,
  true, arith, ltb, ◌==◌, ltb→lt, ==_iff, Bool-cases, u32,
}
use ithildin.Hash.Key.{
  Memory, length_at, IsStrlen, Flags, State, shl32, word, block, blocks, case_from, last_bytes,
  key_length, fold_byte, full_hash, finish, mix, third, add32, bucket_of,
}
use ithildin.Hash.{Table, hash_get_key_hash}

module _ (byte byte' : ℕ → ℕ) where
  block_cong :
      (at : ℕ) (s : State)
      → ((j : ℕ) → j ≤ 12 → j ≢ 4 → byte (at + j) ≡ byte' (at + j))
      → block byte at s ≡ block byte' at s
  unfolding block word
  block_cong at (a, b, c) h =
      let e : at + 0 ≡ at = omega arith in
      let first : byte at ≡ byte' at = rw e at (h 0 (omega arith) (omega arith)) in
      rw (
        first,
        h 1 (omega arith) (omega arith),
        h 2 (omega arith) (omega arith),
        h 3 (omega arith) (omega arith),
        h 5 (omega arith) (omega arith),
        h 6 (omega arith) (omega arith),
        h 7 (omega arith) (omega arith),
        h 8 (omega arith) (omega arith),
        h 9 (omega arith) (omega arith),
        h 10 (omega arith) (omega arith),
        h 11 (omega arith) (omega arith),
        h 12 (omega arith) (omega arith),
      )

  blocks_cong :
      (n at : ℕ) (s : State)
      → ((i : ℕ) → at ≤ i → i ≤ at + 12 * n → (i - at) % 12 ≢ 4 → byte i ≡ byte' i)
      → blocks byte n at s ≡ blocks byte' n at s
  unfolding blocks
  blocks_cong zero at s h = refl
  blocks_cong (suc n) at s h =
      let e = block_cong at s (λ j b q. h (at + j) (omega arith) (omega arith) (omega arith)) in
      blocks_cong n (at + 12) (block byte at s)
        (λ i l u q. h i (omega arith) (omega arith) (omega arith))
      ∙ ap (blocks byte' n (at + 12)) e

case_from_cong : (len k v v' : ℕ) → (k ≤ len → v ≡ v') → case_from len k v ≡ case_from len k v'
unfolding case_from
case_from_cong len k v v' h = ground arith

module _ (byte byte' : ℕ → ℕ) where
  last_bytes_cong :
      (len at : ℕ) (s : State)
      → ((j : ℕ) → j < len → byte (at + j) ≡ byte' (at + j))
      → last_bytes byte len at s ≡ last_bytes byte' len at s
  unfolding last_bytes
  last_bytes_cong len at (a, b, c) h =
      let e : at + 0 ≡ at = omega arith in
      let one : 1 ≤ len → byte at ≡ byte' at = λ p. rw e at (h 0 (omega arith)) in
      let shifted : (j k : ℕ)
          → case_from len (suc j) (shl32 (byte (at + j)) k)
            ≡ case_from len (suc j) (shl32 (byte' (at + j)) k) =
        λ j k. case_from_cong len (suc j) _ _ (λ p. ap (λ x. shl32 x k) (h j (omega arith))) in
      rw (
        shifted 10 24,
        shifted 9 16,
        shifted 8 8,
        shifted 7 24,
        shifted 6 16,
        shifted 5 8,
        case_from_cong len 5 _ _ (λ p. h 4 (omega arith)),
        shifted 3 24,
        shifted 2 16,
        shifted 1 8,
        case_from_cong len 1 _ _ one,
      )

  finish_cong :
      (n : ℕ) (s : State)
      → ((i : ℕ) → 12 * (n / 12) ≤ i → i < n → byte i ≡ byte' i)
      → finish byte n s ≡ finish byte' n s
  unfolding finish
  finish_cong n (a, b, c) h =
      ap (λ t. third (mix t))
        (last_bytes_cong (n % 12) (12 * (n / 12)) (a, b, add32 c n)
          (λ j l. h (12 * (n / 12) + j) (omega arith) (omega arith)))

-- The offsets of a key of `n` bytes whose bytes reach the hash: 4, 16, 28 and so on do not before
-- the last multiple of 12, and `n` itself does where it is a multiple of 12.
unfoldable pub Counts : ℕ → ℕ → Type 0
Counts n i = ((i < n) × ((i % 12 ≢ 4) ⊎ (12 * (n / 12) ≤ i))) ⊎ ((i ≡ n) × (n % 12 ≡ 0))

full_hash_cong :
    (flags : Flags) (keylen len len' n : ℕ) (byte byte' : ℕ → ℕ)
    → key_length flags keylen len ≡ n
    → key_length flags keylen len' ≡ n
    → ((i : ℕ) → Counts n i → fold_byte flags byte i ≡ fold_byte flags byte' i)
    → full_hash flags keylen len byte ≡ full_hash flags keylen len' byte'
unfolding full_hash Counts
full_hash_cong flags keylen len len' n byte byte' k k' h =
    rw (k, k')
      (finish_cong (fold_byte flags byte) (fold_byte flags byte') n _
          (λ i l u. h i (inl (u, inr l)))
        ∙ ap (finish (fold_byte flags byte') n) (
            blocks_cong (fold_byte flags byte) (fold_byte flags byte') (n / 12) 0 _
              (λ i l u q. h i (counts i u q))))
  where
    counts : (i : ℕ) → i ≤ 0 + 12 * (n / 12) → (i - 0) % 12 ≢ 4 → Counts n i
    counts i u q = elim (Bool-cases (ltb i n)) [
      | inl l ↦ inl (ltb→lt i n l, inl (λ e. q (omega (arith, e))))
      | inr l ↦ inr (ground arith)
    ]

-- Where the string is not cut, its NUL stands behind the bytes that are hashed.
nul_behind :
    (memory : Memory) (flags : Flags) (keylen at n : ℕ)
    → flags.string ≡ true
    → IsStrlen memory at
    → length_at memory at < u32
    → key_length flags keylen (length_at memory at) ≡ n
    → n ≢ keylen
    → memory.byte (at + n) ≡ 0
unfolding key_length
nul_behind memory flags keylen at n f v small k q =
    let e : length_at memory at ≡ n = ground (arith, f, small, k, q) in
    subst (λ m. memory.byte (at + m) ≡ 0) e v.ends

module _ (memory : Memory) (t : Table) (key key' offset n : ℕ) where
  abbrev byte : ℕ → ℕ
  byte i = memory.byte (key + offset + i)

  abbrev byte' : ℕ → ℕ
  byte' i = memory.byte (key' + offset + i)

  -- In a table of strings, two keys with a NUL behind them, below 2^32 bytes, of which n bytes are
  -- hashed, get the same hash where they have, up to case if it is ignored, the same bytes at the
  -- offsets below n, those excepted that are 4 modulo 12 and before the last multiple of 12. Only
  -- where n is `keylen` and a multiple of 12, they must have the same byte at n too.
  pub hash_get_key_hash_cong :
      t.flags.string ≡ true
      → IsStrlen memory (key + offset)
      → IsStrlen memory (key' + offset)
      → length_at memory (key + offset) < u32
      → length_at memory (key' + offset) < u32
      → key_length t.flags t.keylen (length_at memory (key + offset)) ≡ n
      → key_length t.flags t.keylen (length_at memory (key' + offset)) ≡ n
      → ((i : ℕ)
          → i < n
          → (i % 12 ≢ 4) ⊎ (12 * (n / 12) ≤ i)
          → fold_byte t.flags byte i ≡ fold_byte t.flags byte' i)
      → (n ≡ t.keylen → n % 12 ≡ 0 → fold_byte t.flags byte n ≡ fold_byte t.flags byte' n)
      → hash_get_key_hash memory t key offset ≡ hash_get_key_hash memory t key' offset
  unfolding hash_get_key_hash Counts
  hash_get_key_hash_cong f v v' small small' k k' below at_n =
      ap (bucket_of t.size)
        (full_hash_cong t.flags t.keylen _ _ n byte byte' k k' (λ i c. counted i c))
    where
      counted : (i : ℕ) → Counts n i → fold_byte t.flags byte i ≡ fold_byte t.flags byte' i
      counted i (inl (l, c)) = below i l c
      counted i (inr (e, z)) = elim (Bool-cases (n == t.keylen)) [
        | inl q ↦ rw e (at_n ((==_iff n t.keylen).0 q) z)
        | inr q ↦
            let no : n ≢ t.keylen = ground (arith, q) in
            rw (
              e,
              nul_behind memory t.flags t.keylen (key + offset) n f v small k no,
              nul_behind memory t.flags t.keylen (key' + offset) n f v' small' k' no,
            )
      ]
