-- ===== src/Acl/Entry.antt =====
-- modules/ircd/addons/acl.h and acl.c: the entries of the access control lists and the state that
-- they belong to. An entry has an address; the list of its stage holds it, and the list of all
-- entries its address. Timers and classes are those of `Timer` and `Class`.
use ithildin.Base.{
  ℕ, ◌+◌, ◌-◌, ◌%◌, ◌^◌, Bool, Option, none, some, List, [], ◌==◌, if◌then◌else◌, take, ℤ, pos,
  negsuc,
}
use ithildin.Text.Case.{Bytes}
use ithildin.Text.Time.{cut}
use ithildin.Timer
use ithildin.Class

-- `ACL_DENY` and `ACL_ALLOW`
pub data Access : Type 0 where
  deny allow : Access

-- `acl_t`, without the configuration that it came from.
pub record Acl : Type 0 where
  pub id : ℕ
  pub stage : ℕ
  pub access : Access
  pub rule : ℕ
  pub hash : ℕ
  pub cls : Option ℕ
  pub user : Bytes
  pub host : Bytes
  pub reason : Option Bytes
  pub info : Option Bytes
  pub pass : Option Bytes
  pub redirect : Option Bytes
  pub redirect_port : ℕ
  pub added : ℕ
  pub expire : ℕ
  pub timer : ℕ
  pub skip_dns : Bool
  pub skip_ident : Bool
  pub kind : Bytes

-- `acl`, the timers and the classes, and `max` of each class.
pub record State : Type 0 where
  pub stage1_list : List Acl
  pub stage2_list : List Acl
  pub stage3_list : List Acl
  pub list : List ℕ
  pub default_rule : ℕ
  pub timers : Timer.State
  pub classes : Class.State
  pub max : ℕ → ℤ

-- `ACL_USERLEN` and `ACL_HOSTLEN`
abbrev pub userlen : ℕ
userlen = 20

abbrev pub hostlen : ℕ
hostlen = 63

-- The list that belongs to a stage, and a write to it.
unfoldable pub list_of : ℕ → State → List Acl
list_of stage s =
    if stage == 1 then s.stage1_list else if stage == 2 then s.stage2_list else s.stage3_list

unfoldable pub set_list : ℕ → List Acl → State → State
set_list stage acls s =
    if stage == 1
    then record s { stage1_list = acls }
    else if stage == 2
    then record s { stage2_list = acls }
    else record s { stage3_list = acls }

-- A rule number as an argument: `ACL_ANY_RULE` is -1, `ACL_DEFAULT_RULE` -2.
unfoldable pub given_rule : ℤ → State → ℤ
given_rule (pos n) s = pos n
given_rule (negsuc n) s = if n == 1 then pos s.default_rule else negsuc n

-- The conversion to `unsigned short`.
unfoldable pub as_ushort : ℤ → ℕ
as_ushort (pos n) = n % 2 ^ 16
as_ushort (negsuc n) = 2 ^ 16 - 1 - n % 2 ^ 16

-- `user@host`, cut to the lengths of the fields.
unfoldable pub user_host : Bytes → Bytes × Bytes
unfolding cut
user_host mask = elim (cut b'@' (take (userlen + hostlen + 1) mask)) [
  | none ↦ ([], take hostlen mask)
  | some (user, host) ↦ (take userlen user, take hostlen host)
]
