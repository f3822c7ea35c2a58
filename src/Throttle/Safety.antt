-- ===== src/Throttle/Safety.antt =====
-- The hooks of a throttle read only lengths that are there, but for the timer's at the last stage.
use ithildin.Base.{
  ℕ, zero, suc, ◌+◌, ◌≤◌, ◌<◌, ◌≡◌, refl, sym, ◌∙◌, ◌↔◌, ◌⊎◌, inl, inr, Bool, true, false, ◌&&◌,
  not, none, some, List, [], ◌∷◌, ◌++◌, arith, ltb, ◌==◌, ltb→lt, Bool-cases, Option-cases, length,
  get_elem?,
}
use ithildin.Throttle.{
  Throttle, Config, Effect, adjust, ban_effects, length_before, restart, is_over, release,
  next_stage, escalate, count_one, throttle_stage1_hook, throttle_timer_hook,
}

-- There is a length for each stage, and there is a stage.
pub record IsConfig (c : Config) : Type 0 where
  pub listed : length c.lengths ≡ c.stages
  pub staged : 0 < c.stages

-- A throttle that is banned has come to a stage.
pub record IsValid (c : Config) (tp : Throttle) : Type 0 where
  pub stage_le : tp.stage ≤ c.stages
  pub begun : (tp.banned ≡ 0) ⊎ (0 < tp.stage)

pub get_elem?-some : (xs : List ℕ) (i : ℕ) → i < length xs → (x : ℕ) × (get_elem? xs i ≡ some x)
get_elem?-some [] i h = absurd (omega arith)
get_elem?-some (x ∷ xs) zero h = (x, refl)
get_elem?-some (x ∷ xs) (suc i) h = get_elem?-some xs i (omega arith)

get_elem?-none : (xs : List ℕ) (i : ℕ) → length xs ≤ i → get_elem? xs i ≡ none
get_elem?-none [] i h = refl
get_elem?-none (x ∷ xs) zero h = absurd (omega arith)
get_elem?-none (x ∷ xs) (suc i) h = get_elem?-none xs i (omega arith)

module _ (c : Config) (v : IsConfig c) where
  pub length_before-some :
      (stage : ℕ) → 0 < stage → stage ≤ c.stages → (len : ℕ) × (length_before c stage ≡ some len)
  length_before-some zero p h = absurd (omega arith)
  length_before-some (suc i) p h = get_elem?-some c.lengths i (omega (arith, v.listed))

  is_over-some :
      (now : ℕ) (tp : Throttle) → IsValid c tp → (over : Bool) × (is_over c now tp ≡ some over)
  unfolding is_over
  is_over-some now tp w = elim (Option-cases (length_before c tp.stage)) [
    | inr (len, e) ↦ (not (tp.banned == 0) && ltb (tp.banned + len) now, rw (is_over, e))
    | inl e ↦ elim (Bool-cases (tp.banned == 0)) [
      | inl z ↦ (false, rw (is_over, e, z))
      | inr n ↦
          let p : 0 < tp.stage = ground (arith, w.begun) in
          let (len, f) = length_before-some tp.stage p w.stage_le in
          absurd (let g : some len ≡ none = sym f ∙ e in cc)
    ]
  ]

  restart-IsValid : (now : ℕ) (tp : Throttle) → IsValid c tp → IsValid c (restart c now tp)
  unfolding restart
  restart-IsValid now tp w = ground (arith, w.stage_le, w.begun)

  -- What the hook leaves of the throttle: it is banned exactly if the connection is refused.
  pub record Handles (tp : Throttle) (refused : Bool) : Type 0 where
    pub valid : IsValid c tp
    pub banned_iff : (refused ≡ true) ↔ (0 < tp.banned)
    pub count_le : tp.count ≤ c.conns

  escalate-Handles :
      (now : ℕ) (tp : Throttle) (effects : List Effect)
      → 0 < now
      → IsValid c tp
      → (tp' : Throttle) × (refused : Bool) × (done : List Effect) × (escalate c now tp effects
          ≡ some (tp', refused, done))
        × Handles tp' refused
  unfolding escalate
  escalate-Handles now tp effects p w =
      let tp' = next_stage c now tp in
      let low : 0 < tp'.stage = ground (arith, v.staged) in
      let high : tp'.stage ≤ c.stages = ground (arith, w.stage_le) in
      let b : 0 < tp'.banned = ground arith in
      let (len, e) = length_before-some tp'.stage low high in
      (
        record tp' { span = len },
        true,
        effects ++ ban_effects c now tp'.banned len,
        rw (escalate, e),
        record {
          valid = record { stage_le = high; begun = inr low };
          banned_iff = ground (arith, b);
          count_le = omega arith;
        },
      )

  count_one-Handles :
      (now : ℕ) (tp : Throttle) (effects : List Effect)
      → 0 < now
      → IsValid c tp
      → (tp' : Throttle) × (refused : Bool) × (done : List Effect) × (count_one c now tp effects
          ≡ some (tp', refused, done))
        × Handles tp' refused
  unfolding count_one
  count_one-Handles now tp effects p w = elim (Bool-cases (ltb (tp.count + 1) c.conns)) [
    | inl few ↦ (
      record tp { count = tp.count + 1 },
      not (tp.banned == 0),
      effects,
      rw (count_one, few),
      record {
        valid = record { stage_le = w.stage_le; begun = w.begun };
        banned_iff = ground arith;
        count_le = ground arith;
      },
    )
    | inr many ↦
        let (tp', refused, done, run, x) =
          escalate-Handles now (record tp { count = tp.count + 1 }) effects p
            (record { stage_le = w.stage_le; begun = w.begun }) in
        (tp', refused, done, rw (count_one, many) run, x)
  ]

  -- With a length for each stage, at least one stage and a clock past 0, the hook of a connection
  -- reads no length that is not there; it refuses exactly where the throttle is banned
  -- afterwards, and the throttle stays valid.
  pub throttle_stage1_hook-Handles :
      (now : ℕ) (tp : Throttle)
      → 0 < now
      → IsValid c tp
      → (tp' : Throttle) × (refused : Bool) × (effects : List Effect) × (throttle_stage1_hook c now
            tp
          ≡ some (tp', refused, effects))
        × Handles tp' refused
  unfolding throttle_stage1_hook release
  throttle_stage1_hook-Handles now tp p w =
      let w' = restart-IsValid now tp w in
      let (over, e) = is_over-some now (restart c now tp) w' in
      elim (Bool-cases over) [
        | inl yes_over ↦
            let (tp', refused, done, run, x) =
              count_one-Handles now (release c now (restart c now tp)) (adjust c.cache ∷ []) p
                (record { stage_le = w'.stage_le; begun = inl refl }) in
            (tp', refused, done, rw (throttle_stage1_hook, e, yes_over) run, x)
        | inr not_over ↦
            let (tp', refused, done, run, x) = count_one-Handles now (restart c now tp) [] p w' in
            (tp', refused, done, rw (throttle_stage1_hook, e, not_over) run, x)
      ]

  -- The hook of the timer reads a length behind the last one exactly if the throttle is at the
  -- last stage.
  pub throttle_timer_hook-none :
      (now : ℕ) (tp : Throttle)
      → IsValid c tp
      → (throttle_timer_hook c now tp ≡ none) ↔ (tp.stage ≡ c.stages)
  unfolding throttle_timer_hook
  throttle_timer_hook-none now tp w = elim (Bool-cases (ltb tp.stage c.stages)) [
    | inl less ↦
        let l = ltb→lt tp.stage c.stages less in
        let (len, e) = get_elem?-some c.lengths tp.stage (omega (arith, v.listed)) in
        (λ h. absurd (let g = rw (throttle_timer_hook, e) at h in cc), λ h. absurd (omega arith))
    | inr last ↦
        let e = get_elem?-none c.lengths tp.stage (ground (arith, v.listed)) in
        (λ h. ground (arith, w.stage_le), λ h. rw (throttle_timer_hook, e))
  ]
