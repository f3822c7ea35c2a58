-- ===== src/Acl/Suffix.antt =====
-- Which part of a host `get_acl_hash` depends on.
use ithildin.Base.{
  ℕ, zero, suc, ◌+◌, ◌<◌, ◌≡◌, refl, sym, ap, ◌∙◌, subst, Bool, false, [], ◌∷◌, ◌++◌, arith, ◌==◌,
  if◌then◌else◌, ==_refl, length, get_or, drop, ℤ,
}
use ithildin.Text.Case.{Bytes}
use ithildin.IrcString.{CharMap}
use ithildin.Acl.Entry.{Access, State, user_host}
use ithildin.Acl.{new_acl}
use ithildin.Acl.Key.{hashlen, hash_start, hash_part, get_acl_hash}
use ithildin.Acl.Stages.{Connection, passed_over}

-- With one more byte in front the walk goes as before, unless it comes to the front.
hash_start-cons :
    (rounds dots c : ℕ) (t : Bytes) (i : ℕ)
    → 0 < hash_start rounds dots t i
    → hash_start rounds dots (c ∷ t) (suc i) ≡ suc (hash_start rounds dots t i)
unfolding hash_start
hash_start-cons zero dots c t i h = refl
hash_start-cons (suc rounds) dots c t zero h = absurd (omega arith)
hash_start-cons (suc rounds) dots c t (suc i) h =
    ground
      (arith, hash_start-cons rounds (if get_or t (suc i) 0 == b'.' then dots + 1 else dots) c t i)

-- The byte at the front is not read.
hash_start-front :
    (rounds dots c d : ℕ) (t : Bytes) (i : ℕ)
    → hash_start rounds dots (c ∷ t) i ≡ hash_start rounds dots (d ∷ t) i
unfolding hash_start
hash_start-front zero dots c d t i = refl
hash_start-front (suc rounds) dots c d t zero = refl
hash_start-front (suc rounds) dots c d t (suc i) =
    rw (hash_start-front rounds (if get_or t i 0 == b'.' then dots + 1 else dots) c d t i) refl

-- The walk over a text that is not empty.
abbrev start : Bytes → ℕ
start [] = 0
start (c ∷ t) = hash_start hashlen 0 (c ∷ t) (length t)

start-cons : (c d : ℕ) (t : Bytes) → 0 < start (d ∷ t) → start (c ∷ d ∷ t) ≡ suc (start (d ∷ t))
start-cons c d t h = hash_start-cons hashlen 0 c (d ∷ t) (length t) h

suc_pos : (n : ℕ) → 0 < suc n
suc_pos n = omega arith

hash-cons :
    (host_map : CharMap) (c : ℕ) (s : Bytes)
    → 0 < start s
    → (0 < start (c ∷ s)) × (get_acl_hash host_map (c ∷ s) ≡ get_acl_hash host_map s)
unfolding get_acl_hash
hash-cons host_map c [] h = absurd (omega arith)
hash-cons host_map c (d ∷ t) h = (
  subst (λ (k : ℕ). 0 < k) (sym (start-cons c d t h)) (suc_pos (start (d ∷ t))),
  ap (λ k. hash_part host_map (drop k (c ∷ d ∷ t))) (start-cons c d t h),
)

hash-append :
    (host_map : CharMap) (p s : Bytes)
    → 0 < start s
    → (0 < start (p ++ s)) × (get_acl_hash host_map (p ++ s) ≡ get_acl_hash host_map s)
hash-append host_map [] s h = (h, refl)
hash-append host_map (c ∷ p) s h =
    let (h', e) = hash-append host_map p s h in
    let (k, f) = hash-cons host_map c (p ++ s) h' in (k, f ∙ e)

hash-front :
    (host_map : CharMap) (c d : ℕ) (t : Bytes)
    → 0 < start (c ∷ t)
    → get_acl_hash host_map (c ∷ t) ≡ get_acl_hash host_map (d ∷ t)
unfolding get_acl_hash
hash-front host_map c d t h =
    let same = hash_start-front hashlen 0 c d t (length t) in
    rw (← same) (dropped (start (c ∷ t)) h)
  where
    dropped :
        (k : ℕ) → 0 < k → hash_part host_map (drop k (c ∷ t)) ≡ hash_part host_map (drop k (d ∷ t))
    dropped zero k = absurd (omega arith)
    dropped (suc n) k = refl

-- Where the walk of `get_acl_hash` over a byte and a text ends behind that byte, all hosts that end
-- with the text, with a byte or more in front of it, have one hash.
pub get_acl_hash-suffix :
    (host_map : CharMap) (p q : Bytes) (c d : ℕ) (t : Bytes)
    → 0 < hash_start hashlen 0 (c ∷ t) (length t)
    → get_acl_hash host_map (p ++ (c ∷ t)) ≡ get_acl_hash host_map (q ++ (d ∷ t))
get_acl_hash-suffix host_map p q c d t h =
    let h' = rw (hash_start-front hashlen 0 c d t (length t)) at h in
    (hash-append host_map p (c ∷ t) h).1
    ∙ hash-front host_map c d t h
    ∙ sym (hash-append host_map q (d ∷ t) h').1

-- An entry of `create_acl` is not passed over for a connection whose host ends as the host of the
-- entry does, as far as the hash is of that end: a byte in front of the end is not hashed.
pub new_acl-passed_over :
    (host_map : CharMap) (hostmatch ipmatch match : Bytes → Bytes → Bool) (id stage : ℕ)
    (acc : Access) (mask kind : Bytes) (rule : ℤ) (s : State) (cp : Connection) (p q : Bytes)
    (c d : ℕ) (t : Bytes)
    → 0 < hash_start hashlen 0 (c ∷ t) (length t)
    → (user_host mask).1 ≡ p ++ (c ∷ t)
    → cp.host ≡ q ++ (d ∷ t)
    → passed_over host_map hostmatch ipmatch match cp
        (new_acl host_map id stage acc mask kind rule s)
      ≡ false
unfolding new_acl passed_over
new_acl-passed_over host_map hostmatch ipmatch match id stage acc mask kind rule s cp p q c d t h e
      f =
    rw (e, f, get_acl_hash-suffix host_map p q c d t h)
      (rw (==_refl (get_acl_hash host_map (q ++ (d ∷ t)))) refl)
