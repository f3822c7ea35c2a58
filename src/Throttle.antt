-- ===== src/Throttle.antt =====
-- modules/ircd/addons/throttle.c: addresses that connect too fast are denied for longer and
-- longer. The hooks act on the throttle of one address, and on its timer and the list of denied
-- hosts by effects in the order of the calls. Times are natural numbers; `none` is a read outside
-- of `lengths`, an overflow, or a setting below 0.
pub mod Safety
pub mod Counting
pub mod Lengths
use ithildin.Base.{
  ℕ, zero, suc, ◌+◌, ◌-◌, ◌*◌, Bool, true, false, ◌&&◌, not, Option, none, some, List, [], ◌∷◌,
  ◌++◌, ltb, leb, ◌==◌, if◌then◌else◌, get_elem?, get_or, set, ℤ, pos, negsuc,
}
use ithildin.Text.Case.{Bytes}
use ithildin.Text.Time.{str_conv_int, str_conv_time}

-- `struct throttle`, without its address and its timer.
pub record Throttle : Type 0 where
  pub first : ℕ
  pub count : ℕ
  pub span : ℕ
  pub banned : ℕ
  pub stage : ℕ

-- The settings in the global `throttle`.
pub record Config : Type 0 where
  pub conns : ℕ
  pub span : ℕ
  pub lengths : List ℕ
  pub stages : ℕ
  pub cache : ℕ

-- adjust_timer(tp->timer, 0, delay), create_timer(0, delay, throttle_timer_hook, tp), the entry
-- that denies the host for a time, and destroy_throttle.
pub data Effect : Type 0 where
  adjust arm deny : ℕ → Effect
  destroy : Effect

abbrev maxconns : ℕ
maxconns = 3

abbrev default_span : ℕ
default_span = 15

abbrev default_stages : ℕ
default_stages = 5

abbrev default_cache : ℕ
default_cache = 3600

unfoldable pub create_throttle : Config → Throttle × List Effect
create_throttle c =
    (record { first = 0; count = 0; span = c.span; banned = 0; stage = 0 }, arm c.cache ∷ [])

-- throttle.lengths[stage - 1]
abbrev pub length_before : Config → ℕ → Option ℕ
length_before c zero = none
length_before c (suc i) = get_elem? c.lengths i

-- The window of `first` and `count` begins anew.
unfoldable pub restart : Config → ℕ → Throttle → Throttle
restart c now tp = if ltb c.span (now - tp.first) then record tp { first = now; count = 0 } else tp

-- tp->banned != 0 && tp->banned + throttle.lengths[tp->stage - 1] < me.now
unfoldable pub is_over : Config → ℕ → Throttle → Option Bool
is_over c now tp = elim (length_before c tp.stage) [
  | none ↦ if tp.banned == 0 then some false else none
  | some len ↦ some (not (tp.banned == 0) && ltb (tp.banned + len) now)
]

-- The ban is taken off.
unfoldable pub release : Config → ℕ → Throttle → Throttle
release c now tp = record tp { banned = 0; first = now; count = 0; span = c.span }

-- The next stage of a throttle that is to be banned or is banned.
unfoldable pub next_stage : Config → ℕ → Throttle → Throttle
next_stage c now tp =
    let banned = if tp.banned == 0 then now else tp.banned in
    let stage = if tp.banned == 0 then 0 else tp.stage in
    record tp {
      banned = banned;
      first = 0;
      count = 0;
      stage = if ltb stage c.stages then stage + 1 else stage;
    }

-- The timer is set for a ban that is longer than the cache, and the host denied while the ban is
-- on.
abbrev pub ban_effects : Config → ℕ → ℕ → ℕ → List Effect
ban_effects c now banned len =
    (if ltb c.cache len then adjust len ∷ [] else [])
    ++ (if leb now (banned + len) then deny len ∷ [] else [])

-- From `if (tp->stage < throttle.stages)` on, with the effects so far.
unfoldable pub escalate :
    Config → ℕ → Throttle → List Effect → Option (Throttle × Bool × List Effect)
unfolding next_stage
escalate c now tp effects =
    let tp' = next_stage c now tp in
    elim (length_before c tp'.stage) [
      | none ↦ none
      | some len ↦
          some (record tp' { span = len }, true, effects ++ ban_effects c now tp'.banned len)
    ]

-- The count of the connection, and what follows.
unfoldable pub count_one :
    Config → ℕ → Throttle → List Effect → Option (Throttle × Bool × List Effect)
unfolding escalate
count_one c now tp effects =
    let tp' = record tp { count = tp.count + 1 } in
    if ltb tp'.count c.conns
    then some (tp', not (tp'.banned == 0), effects)
    else escalate c now tp' effects

-- The throttle after a connection, whether it is refused, and the effects.
unfoldable pub throttle_stage1_hook : Config → ℕ → Throttle → Option (Throttle × Bool × List Effect)
unfolding restart is_over release count_one
throttle_stage1_hook c now tp =
    let tp' = restart c now tp in
    elim (is_over c now tp') [
      | none ↦ none
      | some over ↦
          if over
          then count_one c now (release c now tp') (adjust c.cache ∷ [])
          else count_one c now tp' []
    ]

-- me.now - tp->banned <= throttle.lengths[tp->stage]
unfoldable pub throttle_timer_hook : Config → ℕ → Throttle → Option Effect
throttle_timer_hook c now tp = elim (get_elem? c.lengths tp.stage) [
  | none ↦ none
  | some len ↦ some (if leb (now - tp.banned) len then arm len else destroy)
]

-- for (i = 0;i < throttle.stages;i++), from `i` on, behind the length `previous`.
unfoldable pub fill_lengths : ℕ → ℕ → ℕ → List ℕ
fill_lengths zero i previous = []
fill_lengths (suc n) i previous =
    let len = if i == 0 then 180 else previous * (i + 1) in len ∷ fill_lengths n (i + 1) len

-- The list "throttle" of the configuration: its entries, and those of the list "stages" in it.
pub record Conf : Type 0 where
  pub trigger_count : Option Bytes
  pub trigger_time : Option Bytes
  pub stages : Option Bytes
  pub cache_length : Option Bytes
  pub stage_list : List Bytes

abbrev pub default_config : Config
default_config = record {
  conns = maxconns;
  span = default_span;
  lengths = fill_lengths default_stages 0 0;
  stages = default_stages;
  cache = default_cache;
}

-- Settings below 0 are not followed.
unfoldable pub not_below_0 : ℤ → Option ℕ
not_below_0 (pos n) = some n
not_below_0 (negsuc n) = none

module _ (strtol : Bytes → Option ℤ) where
  -- none is overflow in `str_conv_time`, or a time below 0.
  unfoldable pub time_of : Bytes → Option ℕ
  unfolding not_below_0
  time_of s = elim (str_conv_time strtol s) [ none ↦ none | some z ↦ not_below_0 z ]

  -- The configured lengths from `i` on.
  unfoldable pub read_lengths : List Bytes → ℕ → Config → Option (List ℕ)
  read_lengths [] i c = some c.lengths
  read_lengths (s ∷ entries) i c =
      if leb c.stages i then some c.lengths else elim (time_of s) as (λ o. Option (List ℕ)) [
        | none ↦ none
        | some v ↦
            let computed = if i == 0 then 180 else get_or c.lengths (i - 1) 0 * (i + 1) in
            let len = if v == 0 then computed else v in
            read_lengths entries (i + 1) (record c { lengths = set c.lengths i len })
      ]

  abbrev pub int_or : Option Bytes → ℕ → Option ℕ
  int_or none default = some default
  int_or (some s) default = not_below_0 (str_conv_int strtol s (pos default))

  abbrev pub time_or : Option Bytes → ℕ → Option ℕ
  time_or none default = some default
  time_or (some s) default = time_of s

  -- The settings for numbers of connections and stages that were read.
  unfoldable pub configure : Conf → ℕ → ℕ → Option Config
  unfolding read_lengths fill_lengths time_of
  configure clp conns stages = elim (time_or clp.trigger_time default_span) [
    | none ↦ none
    | some span ↦ elim (time_or clp.cache_length default_cache) [
      | none ↦ none
      | some cache ↦
          let c : Config = record {
            conns = conns;
            span = span;
            lengths = fill_lengths stages 0 0;
            stages = stages;
            cache = cache;
          } in
          elim (read_lengths clp.stage_list 0 c) [
            | none ↦ none
            | some lengths ↦ some (record c { lengths = lengths })
          ]
    ]
  ]

  -- The settings that a configuration gives; all throttles are destroyed before.
  unfoldable pub throttle_conf_hook : Option Conf → Option Config
  unfolding configure not_below_0
  throttle_conf_hook none = some default_config
  throttle_conf_hook (some clp) = elim (int_or clp.trigger_count maxconns) [
    | none ↦ none
    | some conns ↦ elim (int_or clp.stages default_stages) [
      | none ↦ none
      | some stages ↦ configure clp conns stages
    ]
  ]
