-- ===== src/Throttle/Lengths.antt =====
-- The lengths of the stages.
use ithildin.Base.{
  ℕ, zero, suc, ◌+◌, ◌-◌, ◌*◌, ◌<◌, ◌≡◌, refl, ap, ◌∙◌, subst, inl, inr, Option, none, some, List,
  [], ◌∷◌, arith, leb, ◌==◌, if◌then◌else◌, ==_ne, Bool-cases, Option-cases, length, get_elem?,
  get_or, set, length-set, ℤ,
}
use native.Mathlib.Nat.{mul_assoc}
use ithildin.Text.Case.{Bytes}
use ithildin.Throttle.{
  Config, Conf, fill_lengths, read_lengths, int_or, time_of, time_or, default_config, configure,
  throttle_conf_hook,
}

abbrev pub factorial : ℕ → ℕ
factorial zero = 1
factorial (suc n) = factorial n * suc n

length-fill_lengths : (n i previous : ℕ) → length (fill_lengths n i previous) ≡ n
unfolding fill_lengths
length-fill_lengths zero i previous = refl
length-fill_lengths (suc n) i previous = ap suc (length-fill_lengths n (i + 1) _)

factorial_step : (i : ℕ) → factorial (i + 1) ≡ factorial i * (i + 1)
factorial_step i = let e : i + 1 ≡ suc i = omega arith in rw e

fill_lengths-factorial :
    (n i k previous : ℕ)
    → k < n
    → 0 < i
    → previous ≡ 180 * factorial i
    → get_elem? (fill_lengths n i previous) k ≡ some (180 * factorial (i + 1 + k))
unfolding fill_lengths
fill_lengths-factorial zero i k previous h p e = absurd (omega arith)
fill_lengths-factorial (suc n) i zero previous h p e =
    let z : i + 1 + 0 ≡ i + 1 = omega arith in
    rw (==_ne i 0 (omega arith), e, z, factorial_step i)
      (ap some (mul_assoc 180 (factorial i) (i + 1)))
fill_lengths-factorial (suc n) i (suc k) previous h p e =
    let z : i + 1 + suc k ≡ i + 1 + 1 + k = omega arith in
    rw (==_ne i 0 (omega arith), z)
      (fill_lengths-factorial n (i + 1) k (previous * (i + 1)) (omega arith) (omega arith)
        (rw (e, factorial_step i) (mul_assoc 180 (factorial i) (i + 1))))

-- The computed lengths of `n` stages.
fill_lengths-eq :
    (n i : ℕ) → i < n → get_elem? (fill_lengths n 0 0) i ≡ some (180 * factorial (i + 1))
unfolding fill_lengths
fill_lengths-eq zero i h = absurd (omega arith)
fill_lengths-eq (suc n) zero h = refl
fill_lengths-eq (suc n) (suc i) h =
    let z : suc i + 1 ≡ 1 + 1 + i = omega arith in
    rw z (fill_lengths-factorial n 1 i 180 (omega arith) (omega arith) refl)

length-read_lengths :
    (strtol : Bytes → Option ℤ) (entries : List Bytes) (i : ℕ) (c : Config) (lengths : List ℕ)
    → read_lengths strtol entries i c ≡ some lengths
    → length lengths ≡ length c.lengths
unfolding read_lengths
length-read_lengths strtol [] i c lengths e = ground arith
length-read_lengths strtol (s ∷ entries) i c lengths e = elim (Bool-cases (leb c.stages i)) [
  | inl done ↦ let f : some c.lengths ≡ some lengths = rw done at e in ground arith
  | inr more ↦ elim (Option-cases (time_of strtol s)) [
    | inl over ↦ absurd (let f = rw (more, read_lengths, over) at e in cc)
    | inr (v, conv) ↦
        let len =
          if v == 0 then (if i == 0 then 180 else get_or c.lengths (i - 1) 0 * (i + 1)) else v in
        let f = rw (more, read_lengths, conv) at e in
        length-read_lengths strtol entries (i + 1) (record c { lengths = set c.lengths i len })
          lengths f
        ∙ length-set c.lengths i len
  ]
]

configure-listed :
    (strtol : Bytes → Option ℤ) (clp : Conf) (conns stages : ℕ) (c : Config)
    → configure strtol clp conns stages ≡ some c
    → length c.lengths ≡ c.stages
unfolding configure
configure-listed strtol clp conns stages c e =
    elim (Option-cases (time_or strtol clp.trigger_time 15)) [
      | inl e1 ↦ absurd (let f = rw (configure, e1) at e in cc)
      | inr (span, e1) ↦ elim (Option-cases (time_or strtol clp.cache_length 3600)) [
        | inl e2 ↦ absurd (let f = rw (configure, e1, e2) at e in cc)
        | inr (cache, e2) ↦
            let b : Config = record {
              conns = conns;
              span = span;
              lengths = fill_lengths stages 0 0;
              stages = stages;
              cache = cache;
            } in
            elim (Option-cases (read_lengths strtol clp.stage_list 0 b)) [
              | inl e3 ↦ absurd (let f = rw (configure, e1, e2, e3) at e in cc)
              | inr (lengths, e3) ↦
                  let f : some (record b { lengths = lengths }) ≡ some c =
                    rw (configure, e1, e2, e3) at e in
                  let g : record b { lengths = lengths } ≡ c = cc in
                  subst (λ c. length c.lengths ≡ c.stages) g
                    (length-read_lengths strtol clp.stage_list 0 b lengths e3
                      ∙ length-fill_lengths stages 0 0)
            ]
      ]
    ]

-- Whatever configuration is read, there is a length for each stage afterwards.
throttle_conf_hook-listed :
    (strtol : Bytes → Option ℤ) (conf : Option Conf) (c : Config)
    → throttle_conf_hook strtol conf ≡ some c
    → length c.lengths ≡ c.stages
unfolding throttle_conf_hook
throttle_conf_hook-listed strtol none c e =
    let f : default_config ≡ c = cc in
    subst (λ c. length c.lengths ≡ c.stages) f (length-fill_lengths 5 0 0)
throttle_conf_hook-listed strtol (some clp) c e =
    elim (Option-cases (int_or strtol clp.trigger_count 3)) [
      | inl e1 ↦ absurd (let f = rw (throttle_conf_hook, e1) at e in cc)
      | inr (conns, e1) ↦ elim (Option-cases (int_or strtol clp.stages 5)) [
        | inl e2 ↦ absurd (let f = rw (throttle_conf_hook, e1, e2) at e in cc)
        | inr (stages, e2) ↦
            configure-listed strtol clp conns stages c (rw (throttle_conf_hook, e1, e2) at e)
      ]
    ]
