-- ===== src/Acl/Key.antt =====
-- modules/ircd/addons/acl.c: `get_acl_hash`, the hash by which entries are passed over.
use ithildin.Base.{
  ℕ, zero, suc, ◌+◌, ◌*◌, ◌/◌, ◌%◌, ◌&&◌, ◌||◌, not, [], ◌∷◌, map, ltb, ◌==◌, if◌then◌else◌, u32,
  length, get_or, drop,
}
use ithildin.Text.Case.{Bytes, tolower}
use ithildin.IrcString.{CharMap, istr_okay}

-- `ACL_DEFAULT_HASH` and `ACL_HASHLEN`
abbrev pub default_hash : ℕ
default_hash = 0

abbrev pub hashlen : ℕ
hashlen = 20

-- The index at which the part that is hashed begins: `s`, with `rounds` of `ACL_HASHLEN` left and
-- `dots` full stops met.
unfoldable pub hash_start : ℕ → ℕ → Bytes → ℕ → ℕ
hash_start zero dots host s = s
hash_start (suc rounds) dots host zero = zero
hash_start (suc rounds) dots host (suc s) =
    let dots' = if get_or host (suc s) 0 == b'.' then dots + 1 else dots in
    let next = hash_start rounds dots' host s in
    if get_or host (suc s) 0 == b'.' && ltb 1 dots' then suc (suc s) else next

-- while (*s != '\0') hash = hash * 33 + tolower(*s++);
unfoldable pub hash_chars : ℕ → Bytes → ℕ
hash_chars hash [] = hash
hash_chars hash (c ∷ s) = hash_chars ((hash * 33 + tolower c) % u32) s

-- The hash of the part that is hashed.
unfoldable pub hash_part : CharMap → Bytes → ℕ
unfolding hash_chars istr_okay
hash_part map s =
    if ltb (length s) 5 || not (istr_okay map s)
    then default_hash
    else (hash_chars 0 s + hash_chars 0 s / 32) % u32

-- For an empty host the code begins one byte in front of it; whatever that byte is, the part is
-- shorter than five bytes.
unfoldable pub get_acl_hash : CharMap → Bytes → ℕ
unfolding hash_start hash_part
get_acl_hash map [] = default_hash
get_acl_hash map (c ∷ host) =
    hash_part map (drop (hash_start hashlen 0 (c ∷ host) (length host)) (c ∷ host))
