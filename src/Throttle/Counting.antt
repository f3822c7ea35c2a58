-- ===== src/Throttle/Counting.antt =====
-- How many connections are let in before one is refused.
use ithildin.Base.{
  ℕ, ◌+◌, ◌-◌, ◌≤◌, ◌<◌, ◌≡◌, ap, ◌∙◌, inl, inr, Bool, true, false, Option, none, some, List, [],
  ◌∷◌, ◌++◌, arith, ltb, Option-cases, length, replicate, All,
}
use ithildin.Throttle.{
  Throttle, Config, Effect, ban_effects, length_before, restart, is_over, next_stage, escalate,
  count_one, throttle_stage1_hook,
}
use ithildin.Throttle.Safety.{IsConfig, length_before-some}

-- The hook at each of the times, and which of the connections are refused.
unfoldable pub connect_all : Config → List ℕ → Throttle → Option (Throttle × List Bool)
connect_all c [] tp = some (tp, [])
connect_all c (now ∷ times) tp =
    elim (throttle_stage1_hook c now tp) as (λ o. Option (Throttle × List Bool)) [
      | none ↦ none
      | some (tp', refused, effects) ↦
          elim (connect_all c times tp') as (λ o. Option (Throttle × List Bool)) [
            | none ↦ none
            | some (last, answers) ↦ some (last, refused ∷ answers)
          ]
    ]

-- The times that lie in the window which begins at `first`.
abbrev pub InWindow : Config → ℕ → List ℕ → Type 0
InWindow c first times = All (λ now. now ≤ first + c.span) times

module _ (c : Config) where
  restart_within : (now : ℕ) (tp : Throttle) → now ≤ tp.first + c.span → restart c now tp ≡ tp
  unfolding restart
  restart_within now tp h = let e : ltb c.span (now - tp.first) ≡ false = ground arith in rw e

  is_over_unbanned : (now : ℕ) (tp : Throttle) → tp.banned ≡ 0 → is_over c now tp ≡ some false
  unfolding is_over
  is_over_unbanned now tp z = elim (Option-cases (length_before c tp.stage)) [
    | inl e ↦ rw (is_over, e, z)
    | inr (len, e) ↦ rw (is_over, e, z)
  ]

  hook_counts :
      (now : ℕ) (tp : Throttle)
      → tp.banned ≡ 0
      → now ≤ tp.first + c.span
      → throttle_stage1_hook c now tp ≡ count_one c now tp []
  unfolding throttle_stage1_hook
  hook_counts now tp z h =
      let r = restart_within now tp h in
      let o : is_over c now (restart c now tp) ≡ some false =
        ap (is_over c now) r ∙ is_over_unbanned now tp z in
      rw (throttle_stage1_hook, o, r)

  count_few :
      (now : ℕ) (tp : Throttle)
      → tp.banned ≡ 0
      → tp.count + 1 < c.conns
      → count_one c now tp [] ≡ some (record tp { count = tp.count + 1 }, false, [])
  unfolding count_one
  count_few now tp z h = ground (arith, z)

  refuse_last :
      (now : ℕ) (tp : Throttle)
      → IsConfig c
      → 0 < now
      → tp.banned ≡ 0
      → tp.count + 1 ≡ c.conns
      → (last : Throttle) × (effects : List Effect) × (count_one c now tp []
          ≡ some (last, true, effects))
        × (last.banned ≡ now)
        × (last.stage ≡ 1)
  unfolding count_one escalate
  refuse_last now tp v p z h =
      let (len, e) = length_before-some c v 1 (omega arith) (omega (arith, v.staged)) in
      let many : ltb (tp.count + 1) c.conns ≡ false = ground arith in
      let tp' = next_stage c now (record tp { count = tp.count + 1 }) in
      let s : tp'.stage ≡ 1 = ground (arith, z, v.staged) in
      let b : tp'.banned ≡ now = ground (arith, z) in
      let f : length_before c tp'.stage ≡ some len = ap (length_before c) s ∙ e in
      (
        record tp' { span = len },
        ban_effects c now tp'.banned len,
        rw (count_one, many, escalate, f),
        b,
        s,
      )

  -- From a throttle that is not banned, the connections within its window are let in as long as
  -- they are fewer than the trigger count, and the one that makes the count full is refused: the
  -- address is banned from then on, at the first stage.
  connect_all-refuses :
      (times : List ℕ) (now : ℕ) (tp : Throttle)
      → IsConfig c
      → 0 < now
      → tp.banned ≡ 0
      → InWindow c tp.first times
      → now ≤ tp.first + c.span
      → tp.count + length times + 1 ≡ c.conns
      → (last : Throttle) × (connect_all c (times ++ (now ∷ [])) tp
          ≡ some (last, replicate (length times) false ++ (true ∷ [])))
        × (last.banned ≡ now)
        × (last.stage ≡ 1)
  unfolding connect_all
  connect_all-refuses [] now tp v p z w l h =
      let (last, effects, run, b, s) = refuse_last now tp v p z (omega arith) in
      (last, rw (connect_all, hook_counts now tp z l, run), b, s)
  connect_all-refuses (t ∷ times) now tp v p z w l h =
      let tp' = record tp { count = tp.count + 1 } in
      let (last, run, b, s) = connect_all-refuses times now tp' v p z w.1 l (omega arith) in
      (last, rw (connect_all, hook_counts t tp z w.0, count_few t tp z (omega arith), run), b, s)
