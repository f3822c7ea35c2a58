-- ===== src/Acl/Verdicts.antt =====
-- Which entry decides in stage 1.
use ithildin.Base.{
  ℕ, ◌≤◌, ◌≡◌, refl, ap, ◌⊎◌, inl, inr, Bool, true, false, ◌&&◌, ◌||◌, not, none, some, List, [],
  ◌∷◌, ◌++◌, arith, Bool-cases, All,
}
use ithildin.Text.Case.{Bytes}
use ithildin.IrcString.{CharMap}
use ithildin.Acl.Entry.{Acl, State}
use ithildin.Acl.Key.{get_acl_hash}
use ithildin.Acl.Order.{SortedFrom}
use ithildin.Acl.Valid.{IsValid}
use ithildin.Acl.Stages.{Connection, accept, skipped, stage1_loop, stage1_reply, acl_stage1_hook}

All-from :
    (low high : ℕ) (acls : List Acl)
    → low ≤ high
    → SortedFrom high acls
    → All (λ (ap : Acl). low ≤ ap.rule) acls
All-from low high [] h s = tt
All-from low high (ap ∷ acls) h s = (omega arith, All-from low ap.rule acls (omega arith) s.1)

pub cons_eq : (x : Acl) {xs ys : List Acl} → xs ≡ ys → x ∷ xs ≡ x ∷ ys
cons_eq x e = ap (λ l. x ∷ l) e

module _ (host_map : CharMap) (hostmatch ipmatch match : Bytes → Bytes → Bool) where
  -- An entry of stage 1 that is not passed over, and matches.
  abbrev pub matches1 : Connection → Acl → Bool
  matches1 cp ap =
      not (skipped (get_acl_hash host_map cp.host) ap)
      && (ipmatch ap.host cp.host || hostmatch ap.host cp.host)

  -- The entry with the smallest rule among those that match decides.
  pub record Decides (cp : Connection) (acls : List Acl) (ap : Acl) : Type 0 where
    pub before : List Acl
    pub after : List Acl
    pub split : acls ≡ before ++ (ap ∷ after)
    pub matched : matches1 cp ap ≡ true
    pub earlier : All (λ (ap2 : Acl). matches1 cp ap2 ≡ false) before
    pub later : All (λ (ap2 : Acl). ap.rule ≤ ap2.rule) after

  stage1_loop-Decides :
      (cp : Connection) (low : ℕ) (acls : List Acl)
      → SortedFrom low acls
      → ((stage1_loop host_map hostmatch ipmatch match (get_acl_hash host_map cp.host) cp acls
            ≡ none)
          × All (λ (ap : Acl). matches1 cp ap ≡ false) acls)
        ⊎ ((ap : Acl) × (stage1_loop host_map hostmatch ipmatch match
                (get_acl_hash host_map cp.host)
                cp
                acls
              ≡ some ap)
            × Decides cp acls ap)
  unfolding stage1_loop
  stage1_loop-Decides cp low [] s = inl (refl, tt)
  stage1_loop-Decides cp low (ap ∷ acls) s = elim (Bool-cases (matches1 cp ap)) [
    | inl e ↦ inr (
      ap,
      rw e,
      record {
        before = [];
        after = acls;
        split = refl;
        matched = e;
        earlier = tt;
        later = All-from ap.rule ap.rule acls (omega arith) s.1;
      },
    )
    | inr e ↦ elim (stage1_loop-Decides cp ap.rule acls s.1) [
      | inl (run, a) ↦ inl (rw e run, (e, a))
      | inr (ap2, run, d) ↦ inr (
        ap2,
        rw e run,
        record {
          before = ap ∷ d.before;
          after = d.after;
          split = cons_eq ap d.split;
          matched = d.matched;
          earlier = (e, d.earlier);
          later = d.later;
        },
      )
    ]
  ]

  -- On valid lists acl_stage1_hook accepts a connection that no entry matches and leaves it as it
  -- is; else an entry decides whose rule is the smallest of the entries that match, the first
  -- of these in the list: it refuses the connection if it denies, else it sets its flags.
  pub acl_stage1_hook-Decides :
      (cp : Connection) (s : State)
      → IsValid s
      → ((acl_stage1_hook host_map hostmatch ipmatch match cp s ≡ (accept, cp))
          × All (λ (ap : Acl). matches1 cp ap ≡ false) s.stage1_list)
        ⊎ ((ap : Acl) × (acl_stage1_hook host_map hostmatch ipmatch match cp s
              ≡ stage1_reply host_map hostmatch ipmatch match (some ap) cp)
            × Decides cp s.stage1_list ap)
  unfolding acl_stage1_hook stage1_reply
  acl_stage1_hook-Decides cp s v = elim (stage1_loop-Decides cp 0 s.stage1_list v.sorted1) [
    | inl (run, a) ↦ inl (rw run, a)
    | inr (ap, run, d) ↦ inr (ap, rw run, d)
  ]
