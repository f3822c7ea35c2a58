-- ===== src/Hash/Delete.antt =====
-- `hash_delete`.
use ithildin.Base.{
  ◌⊎◌, ℕ, ◌+◌, ◌-◌, ◌%◌, ◌<◌, ◌≡◌, refl, ◌∙◌, ◌↔◌, inl, inr, Bool, true, false, [], arith, ◌==◌,
  if◌then◌else◌, Bool-cases, u32, length, get_or, set, length-set,
}
use ithildin.Hash.Key.{Memory}
use ithildin.Hash.{Bucket, Table, hash_get_key_hash, remove_ent, holds_ent, hash_delete}
use ithildin.Hash.Occurs.{
  one_if, count_in, count, count-set, total-set, holds_ent_iff, count_in-remove_ent,
}
use ithildin.Hash.Placed.{
  home, IsPlaced-get_or, IsPlaced-set, IsHome-remove_ent, count-home, IsValid, SameSettings,
}
use ithildin.Hash.Adds.{home-lt}

-- What `hash_delete` returned for the pointer `p`, and the table that it left.
pub record Deletes (memory : Memory) (t : Table) (p : ℕ) (found : Bool) (u : Table) : Type 0 where
  pub found_iff : (found ≡ true) ↔ (0 < count p t.table)
  pub valid : IsValid memory u
  pub settings : SameSettings t u
  pub size : u.size ≡ t.size
  pub entries : u.entries + one_if found ≡ t.entries
  pub counts : (q : ℕ) → count q u.table + (if found then one_if (p == q) else 0) ≡ count q t.table
  pub kept : (found ≡ true) ⊎ (u ≡ t)

module _ (memory : Memory) (t : Table) (p : ℕ) (v : IsValid memory t) where
  abbrev bucket : Bucket
  bucket = get_or t.table (home memory t p) []

  count-bucket : count p t.table ≡ count_in p bucket
  count-bucket =
      count-home (home memory t) p 0 (home memory t p) t.table v.sound.placed (omega arith)

  -- The table after the removal.
  abbrev shorter : Table
  shorter = record t {
    entries = (t.entries + u32 - 1) % u32;
    table = set t.table (home memory t p) (remove_ent p bucket);
  }

  shorter-Deletes : holds_ent p bucket ≡ true → Deletes memory t p true shorter
  unfolding hash_get_key_hash
  shorter-Deletes h =
      let hash = home memory t p in
      let small : hash < length t.table =
        omega (arith, home-lt memory t p v.sound, v.sound.width) in
      let removal = count_in-remove_ent p p bucket h in
      let totals = total-set t.table hash (remove_ent p bucket) small in
      let few : t.entries < u32 = omega (arith, v.load, v.sound.bounded) in
      let entries : shorter.entries + 1 ≡ t.entries = omega (arith, v.sound.counted) in
      record {
        found_iff = ground (arith, holds_ent_iff p bucket, count-bucket);
        valid = record {
          sound = record {
            width = length-set t.table hash _ ∙ v.sound.width;
            nonempty = v.sound.nonempty;
            bounded = v.sound.bounded;
            counted = omega (arith, v.sound.counted);
            placed = IsPlaced-set (home memory t) 0 hash t.table _ v.sound.placed (
                IsHome-remove_ent (home memory t) (0 + hash) p bucket
                  (IsPlaced-get_or (home memory t) 0 hash t.table v.sound.placed));
          };
          load = omega (arith, v.load);
        };
        settings = record { keyoffset = refl; keylen = refl; flags = refl };
        size = refl;
        entries = entries;
        counts = λ q. omega (
          arith,
          count-set q t.table hash (remove_ent p bucket) small,
          count_in-remove_ent p q bucket h,
        );
        kept = inl refl;
      }

  kept-Deletes : holds_ent p bucket ≡ false → Deletes memory t p false t
  kept-Deletes h = record {
    found_iff = ground (arith, holds_ent_iff p bucket, count-bucket);
    valid = v;
    settings = record { keyoffset = refl; keylen = refl; flags = refl };
    size = refl;
    entries = omega arith;
    counts = λ q. omega arith;
    kept = inr refl;
  }

  -- `hash_delete` on a valid table finds the pointer exactly if it is stored. Then one of its
  -- entries goes and the others stay; else the table stays as it is. The table stays valid either
  -- way.
  pub hash_delete-Deletes : let r = hash_delete memory t p in Deletes memory t p r.0 r.1
  unfolding hash_delete
  hash_delete-Deletes = elim (Bool-cases (holds_ent p bucket)) [
    | inl h ↦ rw h (shorter-Deletes h)
    | inr h ↦ rw h (kept-Deletes h)
  ]
