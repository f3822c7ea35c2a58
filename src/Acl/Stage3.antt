-- ===== src/Acl/Stage3.antt =====
-- modules/ircd/addons/acl.c: `acl_stage3_hook`.
use ithildin.Base.{ℕ, ap, Bool, false, ◌&&◌, not, Option, none, some, List, [], ◌∷◌, if◌then◌else◌}
use ithildin.Text.Case.{Bytes}
use ithildin.Text.Compare.{strcmp}
use ithildin.IrcString.{CharMap}
use ithildin.Acl.Entry.{deny, allow, Acl, State}
use ithildin.Acl.Find.{same}
use ithildin.Acl.Stages.{Connection, room, unlimited_or_below, place, is_matched, passed_over}

-- What the hook returns, none being NULL; the redirects that it has sent; the state.
pub record Outcome : Type 0 where
  pub ret : Option Bytes
  pub sent : List (Bytes × ℕ)
  pub state : State

-- "No more clients allowed in your connection class (the server is full)"
abbrev pub full : Bytes
full =
    78 ∷ 111 ∷ 32 ∷ 109 ∷ 111 ∷ 114 ∷ 101 ∷ 32 ∷ 99 ∷ 108 ∷ 105 ∷ 101 ∷ 110 ∷ 116 ∷ 115 ∷ 32 ∷ 97
    ∷ 108 ∷ 108 ∷ 111 ∷ 119 ∷ 101 ∷ 100 ∷ 32 ∷ 105 ∷ 110 ∷ 32 ∷ 121 ∷ 111 ∷ 117 ∷ 114 ∷ 32 ∷ 99
    ∷ 111 ∷ 110 ∷ 110 ∷ 101 ∷ 99 ∷ 116 ∷ 105 ∷ 111 ∷ 110 ∷ 32 ∷ 99 ∷ 108 ∷ 97 ∷ 115 ∷ 115 ∷ 32 ∷ 40
    ∷ 116 ∷ 104 ∷ 101 ∷ 32 ∷ 115 ∷ 101 ∷ 114 ∷ 118 ∷ 101 ∷ 114 ∷ 32 ∷ 105 ∷ 115 ∷ 32 ∷ 102 ∷ 117
    ∷ 108 ∷ 108 ∷ 41 ∷ []

-- "You are not authorised to use this server."
abbrev pub unauthorised : Bytes
unauthorised =
    89 ∷ 111 ∷ 117 ∷ 32 ∷ 97 ∷ 114 ∷ 101 ∷ 32 ∷ 110 ∷ 111 ∷ 116 ∷ 32 ∷ 97 ∷ 117 ∷ 116 ∷ 104 ∷ 111
    ∷ 114 ∷ 105 ∷ 115 ∷ 101 ∷ 100 ∷ 32 ∷ 116 ∷ 111 ∷ 32 ∷ 117 ∷ 115 ∷ 101 ∷ 32 ∷ 116 ∷ 104 ∷ 105
    ∷ 115 ∷ 32 ∷ 115 ∷ 101 ∷ 114 ∷ 118 ∷ 101 ∷ 114 ∷ 46 ∷ []

-- ap->pass != NULL && cp->pass != NULL && strcmp(ap->pass, cp->pass)
unfoldable pub wrong_pass : Option Bytes → Option Bytes → Bool
unfolding same strcmp
wrong_pass none given = false
wrong_pass (some wanted) none = false
wrong_pass (some wanted) (some given) = not (same (strcmp wanted given))

unfoldable pub first_reason : Option Bytes → Option Bytes → Option Bytes
first_reason none reason = reason
first_reason (some ret) reason = some ret

unfoldable pub redirects : Acl → List (Bytes × ℕ)
redirects ap = elim ap.redirect [ none ↦ [] | some server ↦ (server, ap.redirect_port) ∷ [] ]

module _ (host_map : CharMap) (hostmatch ipmatch match : Bytes → Bytes → Bool) where
  unfoldable pub wrong_info : Option Bytes → Bytes → Bool
  wrong_info none given = false
  wrong_info (some wanted) given = not (match wanted given)

  -- The tests of an entry on a connection.
  unfoldable pub applies : Connection → Acl → Bool
  unfolding passed_over wrong_pass wrong_info is_matched
  applies cp ap =
      not (passed_over host_map hostmatch ipmatch match cp ap)
      && not (wrong_pass ap.pass cp.pass)
      && not (wrong_info ap.info cp.client_info)
      && is_matched host_map hostmatch ipmatch match cp.client_user ap cp

  -- What follows the loop.
  unfoldable pub final : Option Bytes → State → Option Bytes
  final (some ret) s = some ret
  final none s = elim s.stage3_list [ [] ↦ none | ap ∷ acls ↦ some unauthorised ]

  -- `ret` is what the loop has stored so far.
  unfoldable pub stage3_loop : Bool → Connection → Option Bytes → List Acl → State → Option Outcome
  unfolding applies final first_reason redirects room unlimited_or_below place
  stage3_loop placing cp ret [] s = some (record { ret = final ret s; sent = []; state = s })
  stage3_loop placing cp ret (ap ∷ acls) s =
      let rest = λ (r : Option Bytes). stage3_loop placing cp r acls s in
      if applies cp ap
      then elim ap.access [
        | deny ↦
            some (record {
              ret = final (first_reason ret ap.reason) s;
              sent = redirects ap;
              state = s;
            })
        | allow ↦ elim (room ap.cls s) [
          | none ↦ none
          | some r ↦
              if unlimited_or_below r
              then elim (place placing ap.cls cp s) [
                | none ↦ none
                | some s' ↦ some (record { ret = none; sent = []; state = s' })
              ]
              else rest (some full)
        ]
      ]
      else rest ret

  unfoldable pub acl_stage3_hook : Bool → Connection → State → Option Outcome
  unfolding stage3_loop
  acl_stage3_hook placing cp s = stage3_loop placing cp none s.stage3_list s
