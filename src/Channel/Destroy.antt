-- ===== src/Channel/Destroy.antt =====
-- The end of an empty channel keeps the state valid.
use ithildin.Base.{
  ℕ, ◌+◌, ◌<◌, ◌≡◌, sym, ◌∙◌, ◌≢◌, inl, inr, some, List, arith, ◌==◌, ==_iff, ==_refl, ==_ne,
  Bool-cases, length,
}
use ithildin.Hash.Delete.{hash_delete-Deletes}
use ithildin.Channel.{Link, Notice, State, unlink, destroy_channel}
use ithildin.Channel.Walk.{one_if, count, count-unlink, length-unlink, count-length}
use ithildin.Channel.Valid.{on_chan, IsValid}

length-zero : (xs : List ℕ) → length xs ≡ 0 → (l : ℕ) → count l xs ≡ 0
length-zero xs e l = omega (arith, count-length l xs)

module _ {X : Type 0} (notify : Notice → X → X) (clear : ℕ → ℕ → X → X) (chan : ℕ) (s : State X)
    (v : IsValid s) (there : 0 < count chan s.channels) (empty : length (s.users chan) ≡ 0) where
  others : (k : ℕ) → count k (unlink chan s.channels) + one_if (chan == k) ≡ count k s.channels
  others k = count-unlink k chan s.channels there

  still_live :
      (l : ℕ) (link : Link) → s.links l ≡ some link → 0 < count link.chan (unlink chan s.channels)
  still_live l link e = elim (Bool-cases (chan == link.chan)) [
    | inl q ↦
        let p : chan ≡ link.chan = (==_iff _ _).0 q in
        let i : on_chan chan (s.links l) ≡ 0 =
          sym (v.in_users chan l) ∙ length-zero (s.users chan) empty l in
        let j : one_if (link.chan == chan) ≡ 0 = rw e at i in absurd (ground arith)
    | inr q ↦ let o = others link.chan in let f = rw q at o in omega (arith, v.live l link e)
  ]

  pub destroy_channel-IsValid : IsValid (destroy_channel notify clear chan s)
  unfolding destroy_channel
  destroy_channel-IsValid =
      let d = hash_delete-Deletes s.memory s.table chan v.hashed in
      record {
        in_users = v.in_users;
        in_chans = v.in_chans;
        counted = λ k h. v.counted k (omega (arith, others k));
        small = λ k h. v.small k (omega (arith, others k));
        live = still_live;
        single = λ k. omega (arith, others k, v.single k);
        alone = v.alone;
        stats = omega (arith, v.stats, length-unlink chan s.channels there);
        hashed = d.valid;
        tabled = λ k.
            let found = d.found_iff.1 (omega (arith, v.tabled chan)) in
            let c = d.counts k in let c' = rw found at c in omega (arith, c', v.tabled k, others k);
      }

  pub destroy_channel-gone : count chan (destroy_channel notify clear chan s).channels ≡ 0
  unfolding destroy_channel
  destroy_channel-gone =
      let o = others chan in let f = rw (==_refl chan) at o in omega (arith, v.single chan)

  pub destroy_channel-others :
      (k : ℕ)
      → chan ≢ k
      → count k (destroy_channel notify clear chan s).channels ≡ count k s.channels
  unfolding destroy_channel
  destroy_channel-others k n = let o = others k in let f = rw (==_ne chan k n) at o in omega arith
