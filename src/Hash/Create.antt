-- ===== src/Hash/Create.antt =====
-- `create_hash_table`: the size that a request gets.
use ithildin.Base.{
  ◌↔◌, ℕ, zero, suc, ◌*◌, ◌/◌, ◌%◌, ◌^◌, ◌≤◌, ◌<◌, ◌≡◌, refl, sym, ap, ◌⊎◌, inl, inr, false, none,
  some, [], arith, ltb, ltb→lt, Bool-cases, u32, replicate, length-replicate,
}
use native.Mathlib.Nat.{pow-suc}
use ithildin.Hash.Key.{Memory, Flags}
use ithildin.Hash.{Table, max_elems, double_until, real_elems, create_hash_table}
use ithildin.Hash.Occurs.{count, count-replicate}
use ithildin.Hash.Placed.{home, IsPlaced-replicate, IsValid}

-- `r` is the first number from `real` on by doubling that is not below `elems`.
record Doubled (elems real r : ℕ) : Type 0 where
  enough : elems ≤ r
  least : (r ≡ real) ⊎ (r < 2 * elems)
  power : (k : ℕ) × (r ≡ real * 2 ^ k)

double_until-Doubled :
    (fuel elems real : ℕ)
    → elems ≤ real * 2 ^ fuel
    → elems ≤ 2 ^ 31
    → Doubled elems real (double_until fuel elems real)
unfolding double_until
double_until-Doubled zero elems real h k = record {
  enough = omega arith;
  least = inl refl;
  power = (0, omega arith);
}
double_until-Doubled (suc fuel) elems real h k = elim (Bool-cases (ltb real elems)) [
  | inr stop ↦
      rw stop (record { enough = ground arith; least = inl refl; power = (0, omega arith) })
  | inl go ↦
      let small = ltb→lt real elems go in
      let e : real * 2 % u32 ≡ real * 2 = omega arith in
      let d =
        double_until-Doubled fuel elems (real * 2)
          (omega (arith, ap (λ t. real * t) (pow-suc 2 fuel))) k in
      let (j, f) = d.power in
      rw (go, e)
        (record {
          enough = d.enough;
          least = inr (omega (arith, d.least));
          power = (suc j, omega (arith, ap (λ t. real * t) (pow-suc 2 j)));
        })
]

-- What a request of at most 2 ^ 31 elements gets: 64 buckets if it is below 128, and else the
-- largest power of two that is not above it.
pub record Rounded (elems n : ℕ) : Type 0 where
  pub power : (k : ℕ) × (n ≡ 64 * 2 ^ k)
  pub above : elems < 2 * n
  pub below : (n ≡ 64) ⊎ (n ≤ elems)

pub real_elems-Rounded :
    (elems : ℕ)
    → (elems ≤ 2 ^ 31 → (n : ℕ) × (real_elems elems ≡ some n) × Rounded elems n)
      × (2 ^ 31 < elems → real_elems elems ≡ none)
unfolding real_elems
real_elems-Rounded elems = (
  λ h.
      let d = double_until-Doubled 32 elems 0x80 (omega arith) h in
      let (k, e) = d.power in
      let fits : ltb max_elems elems ≡ false = ground arith in
      elim (Bool-cases (ltb elems (double_until 32 elems 0x80))) [
        | inl larger ↦ (
          double_until 32 elems 0x80 / 2,
          rw (fits, larger),
          record {
            power = (k, omega arith);
            above = omega (arith, ltb→lt elems (double_until 32 elems 0x80) larger);
            below = omega (arith, d.least);
          },
        )
        | inr equal ↦ (
          double_until 32 elems 0x80,
          rw (fits, equal),
          record {
            power = (suc k, omega (arith, ap (λ t. 64 * t) (pow-suc 2 k)));
            above = ground (arith, d.least, d.enough);
            below = inr (ground arith);
          },
        )
      ],
  λ h. ground arith,
)

-- A request of at most 2 ^ 29 elements gives a valid empty table with the settings asked for, whose
-- size is the request rounded: 64 for a request below 128, and else the largest power of two that
-- is not above it.
pub create_hash_table-IsValid :
    (memory : Memory) (elems offset len : ℕ) (flags : Flags)
    → elems ≤ 2 ^ 29
    → (t : Table) × (create_hash_table elems offset len flags ≡ some t)
      × IsValid memory t
      × Rounded elems t.size
      × (t.keyoffset ≡ offset)
      × (t.keylen ≡ len)
      × (t.flags ≡ flags)
      × (t.entries ≡ 0)
      × ((q : ℕ) → count q t.table ≡ 0)
unfolding create_hash_table
create_hash_table-IsValid memory elems offset len flags h =
    let (n, e, r) = (real_elems-Rounded elems).0 (omega arith) in
    let t : Table = record {
      size = n;
      entries = 0;
      table = replicate n [];
      keyoffset = offset;
      keylen = len;
      flags = flags;
    } in
    (
      t,
      rw (e, create_hash_table),
      record {
        sound = record {
          width = length-replicate n [];
          nonempty = omega (arith, r.above);
          bounded = omega (arith, r.below);
          counted = sym (count-replicate 0 n).1;
          placed = IsPlaced-replicate (home memory t) 0 n;
        };
        load = omega (arith, r.above);
      },
      r,
      refl,
      refl,
      refl,
      refl,
      λ q. (count-replicate q n).0,
    )

-- A request fails exactly if it is for more than 2 ^ 31 elements.
create_hash_table-none :
    (elems offset len : ℕ) (flags : Flags)
    → (create_hash_table elems offset len flags ≡ none) ↔ (2 ^ 31 < elems)
unfolding create_hash_table
create_hash_table-none elems offset len flags = elim (Bool-cases (ltb (2 ^ 31) elems)) [
  | inl large ↦
      let h = ltb→lt (2 ^ 31) elems large in
      (λ e. h, λ k. rw ((real_elems-Rounded elems).1 h, create_hash_table))
  | inr fits ↦
      let (n, e, r) = (real_elems-Rounded elems).0 (ground arith) in
      (λ k. absurd (let b = rw (e, create_hash_table) at k in cc), λ k. absurd (ground arith))
]
