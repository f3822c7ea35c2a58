-- ===== src/Hash/Adds.antt =====
-- What `add_entry`, the first part of `hash_insert`, adds to a table.
use ithildin.Base.{
  ℕ, ◌+◌, ◌<◌, ◌≡◌, refl, ◌∙◌, Bool, true, false, [], ◌∷◌, ◌++◌, tail, arith, ◌==◌, if◌then◌else◌,
  u32, length, get_or, length-append, length-set, All-append,
}
use ithildin.Hash.Key.{Memory, bucket_of-lt}
use ithildin.Hash.{Hashent, Bucket, Table, hash_get_key_hash, add_entry}
use ithildin.Hash.Occurs.{one_if, count_in, count, count_in-append, count-set, total-set}
use ithildin.Hash.Placed.{home, IsHome, IsPlaced-get_or, IsPlaced-set, IsSound, SameSettings}

-- `t'` is `t` with `n` more entries, of which each pointer has as many as `more` says.
pub record Adds (memory : Memory) (t : Table) (n : ℕ) (more : ℕ → ℕ) (t' : Table) : Type 0 where
  pub sound : IsSound memory t'
  pub settings : SameSettings t t'
  pub size : t'.size ≡ t.size
  pub entries : t'.entries ≡ t.entries + n
  pub counts : (q : ℕ) → count q t'.table ≡ count q t.table + more q

-- The bucket with the new entry, at either end.
abbrev grown_bucket : Bool → Hashent → Bucket → Bucket
grown_bucket tail hep b = if tail then b ++ (hep ∷ []) else hep ∷ b

grown_bucket-count_in :
    (tail : Bool) (hep : Hashent) (b : Bucket) (q : ℕ)
    → count_in q (grown_bucket tail hep b) ≡ count_in q b + one_if (hep.ent == q)
unfolding count_in
grown_bucket-count_in true hep b q = rw count_in-append (omega arith)
grown_bucket-count_in false hep b q = omega arith

length-grown_bucket :
    (tail : Bool) (hep : Hashent) (b : Bucket) → length (grown_bucket tail hep b) ≡ length b + 1
length-grown_bucket true hep b = length-append b (hep ∷ [])
length-grown_bucket false hep b = omega arith

IsHome-grown_bucket :
    (home_of : ℕ → ℕ) (i : ℕ) (tail : Bool) (hep : Hashent) (b : Bucket)
    → hep.hv ≡ i
    → home_of hep.ent ≡ i
    → IsHome home_of i b
    → IsHome home_of i (grown_bucket tail hep b)
IsHome-grown_bucket home_of i true hep b e f h = All-append _ b (hep ∷ []) h ((e, f), tt)
IsHome-grown_bucket home_of i false hep b e f h = ((e, f), h)

module _ (memory : Memory) where
  pub home-lt : (t : Table) (p : ℕ) → IsSound memory t → home memory t p < t.size
  unfolding hash_get_key_hash
  home-lt t p s = bucket_of-lt t.size _ s.nonempty (omega (arith, s.bounded))

  pub add_entry-Adds :
      (t : Table) (p : ℕ)
      → IsSound memory t
      → t.entries + 1 < u32
      → Adds memory t 1 (λ q. one_if (p == q)) (add_entry memory t p)
  unfolding add_entry hash_get_key_hash
  add_entry-Adds t p s h =
      let hash = home memory t p in
      let hep : Hashent = record { ent = p; hv = hash } in
      let b = get_or t.table hash [] in
      let small : hash < length t.table = omega (arith, home-lt t p s, s.width) in
      let b' = grown_bucket t.flags.insert_tail hep b in
      record {
        sound = record {
          width = length-set t.table hash b' ∙ s.width;
          nonempty = s.nonempty;
          bounded = s.bounded;
          counted = omega (
            arith,
            s.counted,
            total-set t.table hash b' small,
            length-grown_bucket t.flags.insert_tail hep b,
          );
          placed = IsPlaced-set (home memory t) 0 hash t.table b' s.placed (
              IsHome-grown_bucket (home memory t) (0 + hash) t.flags.insert_tail hep b (omega arith)
                (omega arith) (IsPlaced-get_or (home memory t) 0 hash t.table s.placed));
        };
        settings = record { keyoffset = refl; keylen = refl; flags = refl };
        size = refl;
        entries = omega arith;
        counts = λ q. omega (
          arith,
          count-set q t.table hash b' small,
          grown_bucket-count_in t.flags.insert_tail hep b q,
        );
      }

  -- Below the load that makes the table grow, one round of fuel is enough.
  pub Adds-trans :
      {t u v : Table} {n m : ℕ} {f g : ℕ → ℕ}
      → Adds memory t n f u
      → Adds memory u m g v
      → Adds memory t (n + m) (λ q. f q + g q) v
  Adds-trans a b = record {
    sound = b.sound;
    settings = record {
      keyoffset = b.settings.keyoffset ∙ a.settings.keyoffset;
      keylen = b.settings.keylen ∙ a.settings.keylen;
      flags = b.settings.flags ∙ a.settings.flags;
    };
    size = b.size ∙ a.size;
    entries = omega (arith, a.entries, b.entries);
    counts = λ q. omega (arith, a.counts q, b.counts q);
  }

  pub Adds-cast :
      {t u : Table} {n m : ℕ} {f g : ℕ → ℕ}
      → n ≡ m
      → ((q : ℕ) → f q ≡ g q)
      → Adds memory t n f u
      → Adds memory t m g u
  Adds-cast e h a = record {
    sound = a.sound;
    settings = a.settings;
    size = a.size;
    entries = omega (arith, a.entries);
    counts = λ q. omega (arith, a.counts q, h q);
  }

  pub Adds-refl : (t : Table) → IsSound memory t → Adds memory t 0 (λ q. 0) t
  Adds-refl t s = record {
    sound = s;
    settings = record { keyoffset = refl; keylen = refl; flags = refl };
    size = refl;
    entries = omega arith;
    counts = λ q. omega arith;
  }
