-- ===== src/Acl/Expire.antt =====
-- modules/ircd/addons/acl.c: `acl_add_timer` and `acl_timer_hook`. A pointer to an entry is its
-- address; `none` is the use of one that leads to no entry, or fuel run out.
use ithildin.Base.{ℕ, ap, Option, none, some, List, [], ◌∷◌, ◌==◌, if◌then◌else◌}
use ithildin.Timer
use ithildin.Timer.{timer_invalid, create_timer, destroy_timer}
use ithildin.Acl.Entry.{Acl, State}
use ithildin.Acl.{destroy_acl}

-- The entry at an address.
unfoldable pub entry_at : ℕ → List Acl → Option Acl
entry_at id [] = none
entry_at id (ap ∷ acls) = if ap.id == id then some ap else entry_at id acls

-- A write through the pointer to an entry.
unfoldable pub write : Acl → List Acl → List Acl
write ap [] = []
write ap (ap2 ∷ acls) = if ap2.id == ap.id then ap ∷ acls else ap2 ∷ write ap acls

unfoldable pub or_else : Option Acl → Option Acl → Option Acl
or_else none o = o
or_else (some ap) o = some ap

unfoldable pub entry : ℕ → State → Option Acl
unfolding entry_at or_else
entry id s =
    or_else (entry_at id s.stage1_list)
      (or_else (entry_at id s.stage2_list) (entry_at id s.stage3_list))

unfoldable pub write_entry : Acl → State → State
unfolding write
write_entry ap s = record s {
  stage1_list = write ap s.stage1_list;
  stage2_list = write ap s.stage2_list;
  stage3_list = write ap s.stage3_list;
}

-- The entry with the timer that was created.
unfoldable pub arm : ℕ → Acl → State → Option (ℕ × Timer.State) → Option State
unfolding write_entry
arm expire ap s none = none
arm expire ap s (some (ref, timers)) =
    let ap' : Acl = record ap { expire = expire; timer = ref } in
    some (write_entry ap' (record s { timers = timers }))

-- The timer is called once, and its hook gets the entry.
unfoldable pub acl_add_timer : ℕ → ℕ → ℕ → State → Option State
unfolding entry arm create_timer destroy_timer
acl_add_timer fuel id expire s = elim (entry id s) [
  | none ↦ none
  | some ap ↦
      let timers =
        if ap.timer == timer_invalid then s.timers else destroy_timer ap.timer s.timers in
      arm expire ap s (create_timer fuel (some 0) expire id timers)
]

unfoldable pub acl_timer_hook : ℕ → State → Option State
unfolding entry destroy_acl
acl_timer_hook id s = elim (entry id s) [
  | none ↦ none
  | some ap ↦ some (destroy_acl (record ap { timer = timer_invalid }) s)
]
