-- ===== src/Tests/Throttle.antt =====
-- modules/ircd/addons/throttle.c with the settings that it has by default.
use ithildin.Base.{◌≡◌, ◌↔◌, inr, Bool, none, some, List, [], ◌∷◌, arith}
use ithildin.Throttle.{Throttle, Config, Effect, throttle_stage1_hook, throttle_timer_hook}
use ithildin.Throttle.Safety.{
  IsConfig, IsValid, Handles, throttle_stage1_hook-Handles, throttle_timer_hook-none,
}

abbrev config : Config
config = record { conns = 3; span = 15; lengths = 180 ∷ 360 ∷ 1080 ∷ []; stages = 3; cache = 3600 }

config-IsConfig : IsConfig config
config-IsConfig = omega arith

-- The throttle of an address that is banned for the third time, and of one that has come at 100.
abbrev banned : Throttle
banned = record { first = 0; count = 2; span = 1080; banned = 50; stage = 3 }

abbrev come : Throttle
come = record { first = 100; count = 1; span = 15; banned = 0; stage = 0 }

banned-IsValid : IsValid config banned
banned-IsValid = record { stage_le = omega arith; begun = inr (omega arith) }

throttle_stage1_hook-Handles_example :
    (tp : Throttle) × (refused : Bool) × (effects : List Effect) × (throttle_stage1_hook config 60
        banned
      ≡ some (tp, refused, effects))
    × Handles config config-IsConfig tp refused
throttle_stage1_hook-Handles_example =
    throttle_stage1_hook-Handles config config-IsConfig 60 banned (omega arith) banned-IsValid

throttle_timer_hook-none_example :
    (throttle_timer_hook config 4000 banned ≡ none) ↔ (3 ≡ config.stages)
throttle_timer_hook-none_example =
    throttle_timer_hook-none config config-IsConfig 4000 banned banned-IsValid
