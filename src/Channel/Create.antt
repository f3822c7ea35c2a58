-- ===== src/Channel/Create.antt =====
-- `create_channel` keeps the state valid.
use ithildin.Base.{
  ℕ, ◌+◌, ◌^◌, ◌≤◌, ◌<◌, ◌≡◌, refl, sym, subst, ◌≢◌, inl, inr, some, [], ◌∷◌, arith, ◌==◌, ==_iff,
  Bool-cases, Option-cases, u32, length,
}
use ithildin.Text.Case.{Bytes}
use ithildin.Hash.Key.{Memory}
use ithildin.Hash.{Table}
use ithildin.Hash.Placed
use ithildin.Hash.Occurs
use ithildin.Hash.Insert.{hash_insert_lem}
use ithildin.Channel.{Notice, channel_create, State, update, write_name, create_channel}
use ithildin.Channel.Walk.{one_if, count, update_self, update_ne}
use ithildin.Channel.Valid.{on_chan, IsValid}

module _ {X : Type 0} (notify : Notice → X → X) (clear : ℕ → ℕ → X → X) (p limit : ℕ) (name : Bytes)
    (now : ℕ) (s : State X) (v : IsValid s) (fresh : count p s.channels ≡ 0)
    (hashed : Placed.IsValid (write_name (p + s.table.keyoffset) limit name s.memory) s.table)
    (room : s.table.size ≤ 2 ^ 28) where
  -- No link leads to a channel that is not there.
  unused : (l : ℕ) → on_chan p (s.links l) ≡ 0
  unused l = elim (Option-cases (s.links l)) [
    | inl e ↦ rw e
    | inr (link, e) ↦ elim (Bool-cases (link.chan == p)) [
      | inl q ↦
          let a = v.live l link e in
          let f = rw ((==_iff link.chan p).0 q) at a in absurd (omega arith)
      | inr q ↦ rw (e, q)
    ]
  ]

  abbrev memory : Memory
  memory = write_name (p + s.table.keyoffset) limit name s.memory

  abbrev after : Table → State X
  after table = record s {
    channels = p ∷ s.channels;
    stats = s.stats + 1;
    table = table;
    memory = memory;
    onchannel = update s.onchannel p 0;
    users = update s.users p [];
    created = update s.created p now;
    ext = notify (channel_create p) s.ext;
  }

  users_after : (k l : ℕ) → count l (update s.users p [] k) ≡ on_chan k (s.links l)
  unfolding update count
  users_after k l = elim (Bool-cases (p == k)) [
    | inl q ↦ rw q (subst (λ k. 0 ≡ on_chan k (s.links l)) ((==_iff p k).0 q) (sym (unused l)))
    | inr q ↦ rw q (v.in_users k l)
  ]

  counted_after :
      (k : ℕ)
      → 0 < count k (p ∷ s.channels)
      → (update s.onchannel p 0 k ≡ length (update s.users p [] k))
        × (length (update s.users p [] k) < u32)
  unfolding update count
  counted_after k h = elim (Bool-cases (p == k)) [
    | inl q ↦ rw q (refl, omega arith)
    | inr q ↦ let h' = rw q at h in rw q (v.counted k (omega arith), v.small k (omega arith))
  ]

  single_after : (k : ℕ) → count k (p ∷ s.channels) ≤ 1
  unfolding count
  single_after k = elim (Bool-cases (p == k)) [
    | inl q ↦ rw q (let f = rw ((==_iff p k).0 q) at fresh in omega arith)
    | inr q ↦ rw q (omega (arith, v.single k))
  ]

  after-IsValid :
      (table : Table)
      → Placed.IsValid memory table
      → ((k : ℕ) → Occurs.count k table.table ≡ Occurs.count k s.table.table + one_if (p == k))
      → IsValid (after table)
  unfolding count
  after-IsValid table valid counts = record {
    in_users = users_after;
    in_chans = v.in_chans;
    counted = λ k h. (counted_after k h).0;
    small = λ k h. (counted_after k h).1;
    live = λ l link e. omega (arith, v.live l link e);
    single = single_after;
    alone = v.alone;
    stats = omega (arith, v.stats);
    hashed = valid;
    tabled = λ k. omega (arith, counts k, v.tabled k);
  }

  -- What `create_channel` gives.
  pub record Creates (t : State X) : Type 0 where
    pub run : create_channel notify clear p limit name now s ≡ some t
    pub valid : IsValid t
    pub there : t.channels ≡ p ∷ s.channels
    pub empty : t.users p ≡ []
    pub links : t.links ≡ s.links
    pub others : (k : ℕ) → p ≢ k → t.users k ≡ s.users k

  -- In a valid state create_channel at a new address, whose name spoils no hash of the table of
  -- names, and with a table of at most 2 ^ 28 buckets, ends and keeps the state valid: the channel
  -- is there without members, and no link nor other channel changes.
  pub create_channel-Creates : (t : State X) × Creates t
  unfolding create_channel
  create_channel-Creates =
      let (table, run, valid, settings, size, entries, counts) =
        hash_insert_lem memory s.table p hashed room in
      (
        after table,
        record {
          run = rw (run, create_channel);
          valid = after-IsValid table valid counts;
          there = refl;
          empty = update_self s.users p [];
          links = refl;
          others = λ k n. update_ne s.users p [] k n;
        },
      )
