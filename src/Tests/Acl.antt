-- ===== src/Tests/Acl.antt =====
-- modules/ircd/addons/acl.c at two entries, two classes and one connection.
use ithildin.Base.{
  ℕ, ◌≤◌, ◌<◌, ◌≡◌, refl, ◌⊎◌, Bool, true, false, none, some, [], ◌∷◌, ◌++◌, arith, length,
  replicate, All, pos,
}
use ithildin.Text.Case.{Bytes, tolower}
use ithildin.IrcString.{CharMap}
use ithildin.Timer
use ithildin.Timer.{u64}
use ithildin.Class
use ithildin.Tests.Class.{default, clients_of, clients_of-IsValid}
use ithildin.Class.Counts.{present}
use ithildin.Acl.Entry.{deny, allow, Acl, State, user_host}
use ithildin.Acl.{new_acl}
use ithildin.Acl.Key.{hashlen, hash_start}
use ithildin.Acl.Order.{ids, occurs}
use ithildin.Acl.Valid.{IsValid}
use ithildin.Acl.Expire.{entry}
use ithildin.Acl.Expires.{Expires, acl_add_timer-Expires}
use ithildin.Timer.Order.{refs}
use ithildin.Timer.Unique.{IsFresh}
use ithildin.Acl.Created.{Creates, create_acl-Creates}
use ithildin.Acl.Suffix.{new_acl-passed_over}
use ithildin.Acl.Stages.{Connection, accept, refuse, passed_over, stage1_reply, acl_stage1_hook}
use ithildin.Acl.Stage3.{Outcome, acl_stage3_hook}
use ithildin.Acl.Verdicts.{matches1, Decides, acl_stage1_hook-Decides}
use ithildin.Acl.Admits.{HasClass, Verdict, acl_stage3_hook-Verdict}

-- "a.example.com"
abbrev host : Bytes
host = b'a' ∷ b'.' ∷ b'e' ∷ b'x' ∷ b'a' ∷ b'm' ∷ b'p' ∷ b'l' ∷ b'e' ∷ b'.' ∷ b'c' ∷ b'o' ∷ b'm' ∷ []

abbrev star : Bytes
star = b'*' ∷ b'.' ∷ b'e' ∷ b'x' ∷ b'a' ∷ b'm' ∷ b'p' ∷ b'l' ∷ b'e' ∷ b'.' ∷ b'c' ∷ b'o' ∷ b'm' ∷ []

-- Every character of the map is valid.
abbrev all_okay : CharMap
all_okay = replicate 256 1

abbrev always : Bytes → Bytes → Bool
always wild s = true

abbrev barred : Acl
barred = record {
  id = 7;
  stage = 1;
  access = deny;
  rule = 500;
  hash = 0;
  cls = some 10;
  user = [];
  host = star;
  reason = none;
  info = none;
  pass = none;
  redirect = none;
  redirect_port = 0;
  added = 0;
  expire = 0;
  timer = Timer.timer_invalid;
  skip_dns = false;
  skip_ident = false;
  kind = [];
}

abbrev welcome : Acl
welcome = record barred { id = 8; stage = 3; access = allow; rule = 600 }

abbrev server : State
server = record {
  stage1_list = barred ∷ [];
  stage2_list = [];
  stage3_list = welcome ∷ [];
  list = 8 ∷ 7 ∷ [];
  default_rule = 1000;
  timers = record { timers = []; refcnt = 0; rollover = false; now = 100 };
  classes = clients_of;
  max = λ k. pos 600;
}

server-IsValid : IsValid server
unfolding ids occurs
server-IsValid = record {
  sorted1 = omega arith;
  sorted2 = tt;
  sorted3 = omega arith;
  staged1 = (refl, tt);
  staged2 = tt;
  staged3 = (refl, tt);
  listed = λ id. ground arith;
  single = λ id. ground arith;
}

abbrev visitor : Connection
visitor = record {
  conn = 1;
  host = host;
  ip = b'1' ∷ [];
  user = b'u' ∷ [];
  client_user = b'u' ∷ [];
  client_info = b'i' ∷ [];
  pass = none;
  dns = false;
  ident = false;
}

unused : occurs 9 server.list ≡ 0
unfolding occurs
unused = refl

create_acl-Creates_example :
    (t u : State) × Creates all_okay 9 1 deny host [] (pos 400) server server-IsValid unused t u
create_acl-Creates_example =
    create_acl-Creates all_okay 9 1 deny host [] (pos 400) server server-IsValid unused

acl_stage1_hook-Decides_example :
    ((acl_stage1_hook all_okay always always always visitor server ≡ (accept, visitor))
      × All
          (λ (ap : Acl). matches1 all_okay always always always visitor ap ≡ false)
          server.stage1_list)
    ⊎ ((ap : Acl) × (acl_stage1_hook all_okay always always always visitor server
          ≡ stage1_reply all_okay always always always (some ap) visitor)
        × Decides all_okay always always always visitor server.stage1_list ap)
acl_stage1_hook-Decides_example =
    acl_stage1_hook-Decides all_okay always always always visitor server server-IsValid

-- The connection is refused.
refused : acl_stage1_hook all_okay always always always visitor server ≡ (refuse [], visitor)
unfolding acl_stage1_hook tolower
refused = refl

connected : present 1 clients_of.conns ≡ true
unfolding present
connected = refl

has_class : All (HasClass server) server.stage3_list
unfolding Class.find
has_class = ((10, default, refl, refl), tt)

acl_stage3_hook-Verdict_example :
    (o : Outcome) × (acl_stage3_hook all_okay always always always true visitor server ≡ some o)
    × Verdict all_okay always always always true visitor none server server.stage3_list o
acl_stage3_hook-Verdict_example =
    acl_stage3_hook-Verdict all_okay always always always true visitor server clients_of-IsValid
      connected has_class

-- ".example.com"
abbrev end : Bytes
end = b'.' ∷ b'e' ∷ b'x' ∷ b'a' ∷ b'm' ∷ b'p' ∷ b'l' ∷ b'e' ∷ b'.' ∷ b'c' ∷ b'o' ∷ b'm' ∷ []

ends : 0 < hash_start hashlen 0 (b'*' ∷ end) (length end)
unfolding hash_start
ends = omega arith

masked : (user_host star).1 ≡ [] ++ (b'*' ∷ end)
unfolding user_host
masked = refl

new_acl-passed_over_example :
    passed_over all_okay always always always visitor
      (new_acl all_okay 9 1 deny star [] (pos 400) server)
    ≡ false
new_acl-passed_over_example =
    new_acl-passed_over all_okay always always always 9 1 deny star [] (pos 400) server visitor []
      [] b'*' b'a' end ends masked refl

found_barred : entry 7 server ≡ some barred
unfolding entry
found_barred = refl

fresh : IsFresh server.timers
unfolding refs
fresh e r h = refl

no_timers : 0 < 1
no_timers = omega arith

few_rounds : 1 ≤ u64
few_rounds = omega arith

first_ref : 0 < u64
first_ref = omega arith

acl_add_timer-Expires_example :
    (ref : ℕ) × (u t : State) × Expires 1 7 60 barred server server-IsValid found_barred refl
      no_timers few_rounds first_ref fresh tt ref u t
acl_add_timer-Expires_example =
    acl_add_timer-Expires 1 7 60 barred server server-IsValid found_barred refl no_timers few_rounds
      first_ref fresh tt
