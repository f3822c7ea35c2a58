-- ===== src/Acl/Stages.antt =====
-- modules/ircd/addons/acl.c: `acl_stage1_hook`, `acl_stage2_hook` and `acl_stage3_hook`. The
-- matchers of hosts and of addresses are parameters, so is `match` of source/string.c.
use ithildin.Base.{
  ℕ, ap, Bool, true, false, ◌&&◌, ◌||◌, not, Option, none, some, List, [], ◌∷◌, ltb, ◌==◌,
  if◌then◌else◌, ℤ, pos, negsuc,
}
use ithildin.Text.Case.{Bytes, peek}
use ithildin.IrcString.{CharMap}
use ithildin.Class
use ithildin.Acl.Entry.{deny, allow, Acl, State}
use ithildin.Acl.Key.{default_hash, get_acl_hash}

-- What the hooks read and write of a connection; `ip` is the address of its socket, and `dns` says
-- that both bits of IRCD_CONNFL_DNS are set.
pub record Connection : Type 0 where
  pub conn : ℕ
  pub host : Bytes
  pub ip : Bytes
  pub user : Bytes
  pub client_user : Bytes
  pub client_info : Bytes
  pub pass : Option Bytes
  pub dns : Bool
  pub ident : Bool

-- A hook returns NULL, or the reason for which the connection is refused.
pub data Reply : Type 0 where
  accept : Reply
  refuse : Bytes → Reply

-- ap->reason != NULL ? ap->reason : ""
unfoldable pub reason_of : Acl → Bytes
reason_of ap = elim ap.reason [ none ↦ [] | some r ↦ r ]

unfoldable pub skipped : ℕ → Acl → Bool
skipped hash ap = not (ap.hash == hash) && not (ap.hash == default_hash)

-- `clients` and `max` of a class, through the pointer to it; `none` is a pointer to no class.
unfoldable pub room : Option ℕ → State → Option (ℕ × ℤ)
unfolding Class.find
room none s = none
room (some k) s = elim (Class.find k s.classes.classes) [
  | none ↦ none
  | some c ↦ some (c.clients, s.max k)
]

-- max > clients
unfoldable pub below : ℕ × ℤ → Bool
below (clients, pos max) = ltb clients max
below (clients, negsuc max) = false

-- max < 1 || max > clients
unfoldable pub unlimited_or_below : ℕ × ℤ → Bool
unfolding below
unlimited_or_below (clients, pos max) = ltb max 1 || ltb clients max
unlimited_or_below (clients, negsuc max) = true

-- if (ep != NULL) add_to_class(ap->cls, cp);
unfoldable pub place : Bool → Option ℕ → Connection → State → Option State
unfolding Class.add_to_class
place false cls cp s = some s
place true none cp s = none
place true (some k) cp s = elim (Class.add_to_class k cp.conn s.classes) [
  | none ↦ none
  | some classes ↦ some (record s { classes = classes })
]

module _ (host_map : CharMap) (hostmatch ipmatch match : Bytes → Bytes → Bool) where
  unfoldable pub stage1_loop : ℕ → Connection → List Acl → Option Acl
  unfolding skipped
  stage1_loop hash cp [] = none
  stage1_loop hash cp (ap ∷ acls) =
      if not (skipped hash ap) && (ipmatch ap.host cp.host || hostmatch ap.host cp.host)
      then some ap
      else stage1_loop hash cp acls

  -- The entry at which the loop stops refuses the connection or sets its flags.
  unfoldable pub stage1_reply : Option Acl → Connection → Reply × Connection
  unfolding reason_of
  stage1_reply none cp = (accept, cp)
  stage1_reply (some ap) cp = elim ap.access [
    | deny ↦ (refuse (reason_of ap), cp)
    | allow ↦ (accept, record cp { dns = cp.dns || ap.skip_dns; ident = cp.ident || ap.skip_ident })
  ]

  unfoldable pub acl_stage1_hook : Connection → State → Reply × Connection
  unfolding get_acl_hash stage1_loop stage1_reply
  acl_stage1_hook cp s =
      stage1_reply (stage1_loop (get_acl_hash host_map cp.host) cp s.stage1_list) cp

  -- The tests on host and address that stages 2 and 3 share, with those on the user.
  unfoldable pub is_matched : Bytes → Acl → Connection → Bool
  is_matched user ap cp =
      (if peek ap.user == 0 then true else hostmatch ap.user user)
      && (hostmatch ap.host cp.host || hostmatch ap.host cp.ip || ipmatch ap.host cp.ip)

  unfoldable pub passed_over : Connection → Acl → Bool
  unfolding get_acl_hash
  passed_over cp ap =
      not (ap.hash == get_acl_hash host_map cp.host)
      && not (ap.hash == get_acl_hash host_map cp.ip)
      && not (ap.hash == default_hash)

  -- `placing` is `ep != NULL`: the hook was called by an event.
  unfoldable pub stage2_loop : Bool → Connection → List Acl → State → Option (Reply × State)
  unfolding is_matched passed_over reason_of room below place
  stage2_loop placing cp [] s = some (accept, s)
  stage2_loop placing cp (ap ∷ acls) s =
      let rest = stage2_loop placing cp acls s in
      if not (passed_over cp ap) && is_matched cp.user ap cp
      then elim ap.access [
        | deny ↦ some (refuse (reason_of ap), s)
        | allow ↦ elim (room ap.cls s) [
          | none ↦ none
          | some r ↦
              if below r
              then elim (place placing ap.cls cp s) [ none ↦ none | some s' ↦ some (accept, s') ]
              else rest
        ]
      ]
      else rest

  unfoldable pub acl_stage2_hook : Bool → Connection → State → Option (Reply × State)
  unfolding stage2_loop
  acl_stage2_hook placing cp s = stage2_loop placing cp s.stage2_list s
