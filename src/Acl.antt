-- ===== src/Acl.antt =====
-- modules/ircd/addons/acl.c: how entries are added to the access control lists and taken away.
pub mod Admits
pub mod Created
pub mod Entry
pub mod Expire
pub mod Expires
pub mod Find
pub mod Gone
pub mod Key
pub mod Order
pub mod Stage3
pub mod Stages
pub mod Suffix
pub mod Valid
pub mod Verdicts
pub mod Written
use ithildin.Base.{
  ℕ, ap, false, Option, none, some, List, [], ◌∷◌, map, ltb, ◌==◌, if◌then◌else◌, ℤ,
}
use ithildin.Text.Case.{Bytes}
use ithildin.IrcString.{CharMap}
use ithildin.Timer.{timer_invalid, destroy_timer}
use ithildin.Class
use ithildin.Acl.Key.{get_acl_hash}
use ithildin.Acl.Entry.{Access, Acl, State, list_of, set_list, given_rule, as_ushort, user_host}
use ithildin.Acl.Find.{find_acl}

-- `LIST_REMOVE` from a list of entries, and from the list of all.
unfoldable pub unlink : ℕ → List Acl → List Acl
unlink id [] = []
unlink id (ap ∷ acls) = if ap.id == id then acls else ap ∷ unlink id acls

unfoldable pub unlist : ℕ → List ℕ → List ℕ
unlist id [] = []
unlist id (x ∷ xs) = if x == id then xs else x ∷ unlist id xs

unfoldable pub destroy_acl : Acl → State → State
unfolding unlink unlist list_of set_list destroy_timer
destroy_acl ap s =
    let s' : State = set_list ap.stage (unlink ap.id (list_of ap.stage s)) s in
    record s' {
      list = unlist ap.id s'.list;
      timers = if ap.timer == timer_invalid then s'.timers else destroy_timer ap.timer s'.timers;
    }

-- Before the first entry with a greater rule, or at the end.
unfoldable pub insert_acl : Acl → List Acl → List Acl
insert_acl ap [] = ap ∷ []
insert_acl ap (ap2 ∷ acls) =
    if ltb ap.rule ap2.rule then ap ∷ ap2 ∷ acls else ap2 ∷ insert_acl ap acls

-- LIST_FIRST(ircd.lists.classes)
unfoldable pub first_class : List Class.Class → Option ℕ
first_class [] = none
first_class (c ∷ cs) = some c.id

-- The entry that `create_acl` makes at the address `id`.
unfoldable pub new_acl : CharMap → ℕ → ℕ → Access → Bytes → Bytes → ℤ → State → Acl
unfolding user_host given_rule as_ushort get_acl_hash first_class
new_acl map id stage acc mask kind rule s =
    let (user, host) = user_host mask in
    record {
      id = id;
      stage = stage;
      access = acc;
      rule = as_ushort (given_rule rule s);
      hash = get_acl_hash map host;
      cls = first_class s.classes.classes;
      user = user;
      host = host;
      reason = none;
      info = none;
      pass = none;
      redirect = none;
      redirect_port = 0;
      added = s.timers.now;
      expire = 0;
      timer = timer_invalid;
      skip_dns = false;
      skip_ident = false;
      kind = kind;
    }

-- An entry that is found is taken away, unless it has an info line.
unfoldable pub replace : Option Acl → State → State
unfolding destroy_acl
replace none s = s
replace (some ap) s = elim ap.info [ none ↦ destroy_acl ap s | some info ↦ s ]

unfoldable pub add_acl : Acl → State → State
unfolding list_of set_list insert_acl
add_acl ap s =
    let s' : State = set_list ap.stage (insert_acl ap (list_of ap.stage s)) s in
    record s' { list = ap.id ∷ s'.list }

unfoldable pub create_acl : CharMap → ℕ → ℕ → Access → Bytes → Bytes → ℤ → State → Option State
unfolding find_acl replace new_acl add_acl
create_acl map id stage acc mask kind rule s =
    elim (find_acl stage (some acc) mask kind rule none none s) [
      | none ↦ none
      | some found ↦
          let s' = replace found s in some (add_acl (new_acl map id stage acc mask kind rule s') s')
    ]
