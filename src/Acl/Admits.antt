-- ===== src/Acl/Admits.antt =====
-- Which entry decides in stage 3, and what it does.
use ithildin.Base.{
  ℕ, ◌≡◌, refl, ap, ◌⊎◌, inl, inr, Bool, true, false, ◌||◌, Option, none, some, List, [], ◌∷◌, ◌++◌,
  if◌then◌else◌, Bool-cases, All, ℤ,
}
use ithildin.Text.Case.{Bytes}
use ithildin.IrcString.{CharMap}
use ithildin.Class
use ithildin.Class.Counts.{present}
use ithildin.Class.Invariant
use ithildin.Class.Enter.{add_to_class-Enters}
use ithildin.Acl.Entry.{Access, deny, allow, Acl, State}
use ithildin.Acl.Stages.{Connection, room, unlimited_or_below, place}
use ithildin.Acl.Stage3.{
  Outcome, full, first_reason, redirects, applies, final, stage3_loop, acl_stage3_hook,
}
use ithildin.Acl.Verdicts.{cons_eq}

-- The entry has a class, which is there.
abbrev pub HasClass : State → Acl → Type 0
HasClass s ap =
    (k : ℕ) × (c : Class.Class) × (ap.cls ≡ some k) × (Class.find k s.classes.classes ≡ some c)

-- What `place` gives.
pub data Places (placing : Bool) (k : ℕ) (cp : Connection) (s : State) (t : State) : Type 0 where
  stays : placing ≡ false → t ≡ s → Places placing k cp s t
  enters :
      placing ≡ true
      → Class.class_of cp.conn t.classes.conns ≡ some k
      → Class.Invariant.IsValid t.classes
      → Places placing k cp s t

place-Places :
    (placing : Bool) (k : ℕ) (c : Class.Class) (cp : Connection) (s : State)
    → Class.Invariant.IsValid s.classes
    → present cp.conn s.classes.conns ≡ true
    → Class.find k s.classes.classes ≡ some c
    → (t : State) × (place placing (some k) cp s ≡ some t) × Places placing k cp s t
unfolding place
place-Places false k c cp s v here found = (s, refl, stays refl refl)
place-Places true k c cp s v here found =
    let (cs, run, e) = add_to_class-Enters k cp.conn c s.classes v here found in
    (record s { classes = cs }, rw (place, run), enters refl e.joined e.valid)

Access-cases : (a : Access) → (a ≡ deny) ⊎ (a ≡ allow)
Access-cases deny = inl refl
Access-cases allow = inr refl

room_of :
    (cls : Option ℕ) (k : ℕ) (c : Class.Class) (s : State)
    → cls ≡ some k
    → Class.find k s.classes.classes ≡ some c
    → room cls s ≡ some (c.clients, s.max k)
unfolding room
room_of cls k c s e f = rw (e, room, f)

module _ (host_map : CharMap) (hostmatch ipmatch match : Bytes → Bytes → Bool) where
  -- An entry that the search goes past: it does not apply, or its class has no room.
  pub data Passed (cp : Connection) (s : State) (ap : Acl) : Type 0 where
    other : applies host_map hostmatch ipmatch match cp ap ≡ false → Passed cp s ap
    crowded :
        (r : ℕ × ℤ)
        → applies host_map hostmatch ipmatch match cp ap ≡ true
        → ap.access ≡ allow
        → room ap.cls s ≡ some r
        → unlimited_or_below r ≡ false
        → Passed cp s ap

  -- Whether an entry applies, and so, before the one that decides, has a full class.
  unfoldable pub any_applies : Connection → List Acl → Bool
  any_applies cp [] = false
  any_applies cp (ap ∷ acls) = applies host_map hostmatch ipmatch match cp ap || any_applies cp acls

  -- What the loop has stored after it passed the entries.
  abbrev pub stored : Connection → Option Bytes → List Acl → Option Bytes
  stored cp ret before = if any_applies cp before then some full else ret

  pub data Verdict (placing : Bool) (cp : Connection) (ret : Option Bytes) (s : State)
      (acls : List Acl) (o : Outcome) : Type 0 where
    admitted :
        (before after : List Acl) (ap : Acl) (k : ℕ) (r : ℕ × ℤ)
        → acls ≡ before ++ (ap ∷ after)
        → All (Passed cp s) before
        → applies host_map hostmatch ipmatch match cp ap ≡ true
        → ap.access ≡ allow
        → ap.cls ≡ some k
        → room ap.cls s ≡ some r
        → unlimited_or_below r ≡ true
        → (o.ret ≡ none) × (o.sent ≡ []) × Places placing k cp s o.state
        → Verdict placing cp ret s acls o
    denied :
        (before after : List Acl) (ap : Acl)
        → acls ≡ before ++ (ap ∷ after)
        → All (Passed cp s) before
        → applies host_map hostmatch ipmatch match cp ap ≡ true
        → ap.access ≡ deny
        → (o.ret
            ≡ final host_map hostmatch ipmatch match
                (first_reason (stored cp ret before) ap.reason)
                s)
          × (o.sent ≡ redirects ap)
          × (o.state ≡ s)
        → Verdict placing cp ret s acls o
    undecided :
        All (Passed cp s) acls
        → (o.ret ≡ final host_map hostmatch ipmatch match (stored cp ret acls) s)
          × (o.sent ≡ [])
          × (o.state ≡ s)
        → Verdict placing cp ret s acls o

  stored_other :
      (cp : Connection) (ret : Option Bytes) (ap : Acl) (bs : List Acl)
      → applies host_map hostmatch ipmatch match cp ap ≡ false
      → stored cp ret (ap ∷ bs) ≡ stored cp ret bs
  unfolding any_applies
  stored_other cp ret ap bs e = rw e

  stored_crowded :
      (cp : Connection) (ret : Option Bytes) (ap : Acl) (bs : List Acl)
      → applies host_map hostmatch ipmatch match cp ap ≡ true
      → stored cp ret (ap ∷ bs) ≡ stored cp (some full) bs
  unfolding any_applies
  stored_crowded cp ret ap bs e =
      rw e (elim (Bool-cases (any_applies cp bs)) [ inl f ↦ rw f | inr f ↦ rw f ])

  -- A verdict on the rest after an entry that the search goes past.
  extend :
      {placing : Bool} {cp : Connection} {s : State} (ret ret' : Option Bytes) (ap : Acl)
      (acls : List Acl) (o : Outcome)
      → Passed cp s ap
      → ((bs : List Acl) → stored cp ret (ap ∷ bs) ≡ stored cp ret' bs)
      → Verdict placing cp ret' s acls o
      → Verdict placing cp ret s (ap ∷ acls) o
  extend ret ret' ap acls o p same (admitted before after ap2 k r split a e f g m l out) =
      admitted (ap ∷ before) after ap2 k r (cons_eq ap split) (p, a) e f g m l out
  extend ret ret' ap acls o p same (denied before after ap2 split a e f out) =
      denied (ap ∷ before) after ap2 (cons_eq ap split) (p, a) e f (rw (same before) out)
  extend ret ret' ap acls o p same (undecided a out) = undecided (p, a) (rw (same acls) out)

  module _ (placing : Bool) (cp : Connection) (s : State) (v : Class.Invariant.IsValid s.classes)
      (here : present cp.conn s.classes.conns ≡ true) where
    applied :
        (ret : Option Bytes) (ap : Acl) (acls : List Acl)
        → HasClass s ap
        → applies host_map hostmatch ipmatch match cp ap ≡ true
        → (ap.access ≡ deny) ⊎ (ap.access ≡ allow)
        → (o : Outcome) × (stage3_loop host_map hostmatch ipmatch match placing cp
              (some full)
              acls
              s
            ≡ some o)
          × Verdict placing cp (some full) s acls o
        → (o : Outcome) × (stage3_loop host_map hostmatch ipmatch match placing cp ret (ap ∷ acls) s
            ≡ some o)
          × Verdict placing cp ret s (ap ∷ acls) o
    unfolding stage3_loop any_applies
    applied ret ap acls c e (inl d) rest = (
      record {
        ret = final host_map hostmatch ipmatch match (first_reason ret ap.reason) s;
        sent = redirects ap;
        state = s;
      },
      rw (e, stage3_loop, d),
      denied [] acls ap refl tt e d (refl, refl, refl),
    )
    applied ret ap acls (k, c, q, found) e (inr a) (o, run, w) =
        let r : ℕ × ℤ = (c.clients, s.max k) in
        let m : room ap.cls s ≡ some r = room_of ap.cls k c s q found in
        elim (Bool-cases (unlimited_or_below r)) [
          | inl l ↦
              let (t, go, p) = place-Places placing k c cp s v here found in
              (
                record { ret = none; sent = []; state = t },
                rw (e, stage3_loop, a, m, l, q, go),
                admitted [] acls ap k r refl tt e a q m l (refl, refl, p),
              )
          | inr l ↦ (
            o,
            rw (e, stage3_loop, a, m, l) run,
            extend ret (some full) ap acls o (crowded r e a m l)
                (λ bs. stored_crowded cp ret ap bs e) w,
          )
        ]

    stage3_loop-Verdict :
        (ret : Option Bytes) (acls : List Acl)
        → All (HasClass s) acls
        → (o : Outcome) × (stage3_loop host_map hostmatch ipmatch match placing cp ret acls s
            ≡ some o)
          × Verdict placing cp ret s acls o
    unfolding stage3_loop any_applies
    stage3_loop-Verdict ret [] h = (
      record { ret = final host_map hostmatch ipmatch match ret s; sent = []; state = s },
      refl,
      undecided tt (refl, refl, refl),
    )
    stage3_loop-Verdict ret (ap ∷ acls) h =
        elim (Bool-cases (applies host_map hostmatch ipmatch match cp ap)) [
          | inr e ↦
              let (o, run, w) = stage3_loop-Verdict ret acls h.1 in
              (
                o,
                rw (e, stage3_loop) run,
                extend ret ret ap acls o (other e) (λ bs. stored_other cp ret ap bs e) w,
              )
          | inl e ↦
              applied ret ap acls h.0 e (Access-cases ap.access)
                (stage3_loop-Verdict (some full) acls h.1)
        ]

    -- Where the connections and classes are valid and each entry of the stage has a class that is
    -- there, acl_stage3_hook ends. Past entries that do not apply or whose class is full it comes
    -- to the one that decides, if there is one: an allowing one whose class has room admits the
    -- connection, and where the hook was called by an event puts it into the class and leaves the
    -- classes valid; a denying one refuses it, for a full class if there was one, else for its
    -- reason or a standard one. Without one the connection is refused, but for an empty list, and
    -- nothing changes.
    pub acl_stage3_hook-Verdict :
        All (HasClass s) s.stage3_list
        → (o : Outcome) × (acl_stage3_hook host_map hostmatch ipmatch match placing cp s ≡ some o)
          × Verdict placing cp none s s.stage3_list o
    unfolding acl_stage3_hook
    acl_stage3_hook-Verdict h = stage3_loop-Verdict none s.stage3_list h
