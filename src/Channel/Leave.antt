-- ===== src/Channel/Leave.antt =====
-- `del_from_channel` keeps the state valid.
use ithildin.Base.{
  ℕ, ◌<◌, ◌≡◌, refl, sym, ap, ◌∙◌, ◌≢◌, ◌⊎◌, inl, inr, Bool, Option, none, some, arith, ◌==◌,
  ==_iff, Bool-cases, length,
}
use ithildin.Channel.{
  Notice, State, find_chan_link, destroy_channel, drop_link, destroy_empty, del_from_channel,
}
use ithildin.Channel.Walk.{count}
use ithildin.Channel.Valid.{IsValid, Finds, member, absent, Finds-unique, find_chan_link-Finds}
use ithildin.Channel.Drop.{drop_link-IsValid, drop_link-Finds, drop_link-absent}
use ithildin.Channel.Destroy.{destroy_channel-IsValid, destroy_channel-gone, destroy_channel-others}

module _ {X : Type 0} (notify : Notice → X → X) (clear : ℕ → ℕ → X → X) (cli chan : ℕ) where
  -- What is left of the channel: it is there with a member, or empty and gone.
  pub data Remains (s t : State X) : Type 0 where
    kept : 0 < length (t.users chan) → t.channels ≡ s.channels → Remains s t
    gone :
        length (t.users chan) ≡ 0
        → count chan t.channels ≡ 0
        → ((k : ℕ) → chan ≢ k → count k t.channels ≡ count k s.channels)
        → Remains s t

  -- What the exit of the client gives.
  pub record Leaves (s t : State X) : Type 0 where
    pub valid : IsValid t
    pub out : find_chan_link cli chan t ≡ some none
    pub others : (c k : ℕ) → (cli ≢ c) ⊎ (chan ≢ k) → find_chan_link c k t ≡ find_chan_link c k s
    pub remains : Remains s t

  module _ (s : State X) (v : IsValid s) (there : 0 < count chan s.channels) where
    -- From a state `u` with the channels of `s`, where the client is out.
    emptied :
        (u : State X)
        → IsValid u
        → u.channels ≡ s.channels
        → Finds cli chan u none
        → ((c k : ℕ) (o : Option ℕ) → (cli ≢ c) ⊎ (chan ≢ k) → Finds c k s o → Finds c k u o)
        → Leaves s (destroy_empty notify clear chan u)
    unfolding destroy_empty destroy_channel find_chan_link
    emptied u w same f keep = elim (Bool-cases (u.onchannel chan == 0)) [
      | inr n ↦ rw n (record {
        valid = w;
        out = out_of;
        others = others_of;
        remains = kept (ground (arith, n, counted)) same;
      })
      | inl z ↦
          let empty : length (u.users chan) ≡ 0 = sym counted ∙ (==_iff (u.onchannel chan) 0).0 z in
          rw z (record {
            valid = destroy_channel-IsValid notify clear chan u w there' empty;
            out = out_of;
            others = others_of;
            remains = gone empty (destroy_channel-gone notify clear chan u w there' empty) (λ k n.
                destroy_channel-others notify clear chan u w there' empty k n ∙ ap (count k) same);
          })
    ]
      where
        there' : 0 < count chan u.channels
        there' = rw same there

        counted : u.onchannel chan ≡ length (u.users chan)
        counted = w.counted chan there'

        out_of : find_chan_link cli chan u ≡ some none
        out_of =
            let (o, run, g) = find_chan_link-Finds u w cli chan in
            run ∙ ap some (Finds-unique w g f)

        others_of : (c k : ℕ) → (cli ≢ c) ⊎ (chan ≢ k) → find_chan_link c k u ≡ find_chan_link c k s
        others_of c k p =
            let (o, run, g) = find_chan_link-Finds u w c k in
            let (o', run', g') = find_chan_link-Finds s v c k in
            run ∙ ap some (Finds-unique w g (keep c k o' p g')) ∙ sym run'

    found :
        (hook : Bool) (o : Option ℕ)
        → find_chan_link cli chan s ≡ some o
        → Finds cli chan s o
        → (t : State X) × (del_from_channel notify clear cli chan hook s ≡ some t) × Leaves s t
    unfolding del_from_channel drop_link
    found hook o run (absent all) = (
      destroy_empty notify clear chan s,
      rw (run, del_from_channel),
      emptied s v refl (absent all) (λ c k o p g. g),
    )
    found hook o run (member l link at a b) =
        let u : State X = drop_link notify clear l cli chan hook s in
        (
          destroy_empty notify clear chan u,
          rw (run, del_from_channel),
          emptied u (drop_link-IsValid notify clear l cli chan hook s v there link at a b) refl
              (drop_link-absent notify clear l cli chan hook s v there link at a b)
              (drop_link-Finds notify clear l cli chan hook s v there link at a b),
        )

    -- In a valid state del_from_channel ends for a channel that is there and any client, and keeps
    -- the state valid. No link of the two is found then, that of any other pair is found as before,
    -- and the channel is gone, from the table of names too, exactly if it has no member left.
    pub del_from_channel-Leaves :
        (hook : Bool)
        → (t : State X) × (del_from_channel notify clear cli chan hook s ≡ some t) × Leaves s t
    del_from_channel-Leaves hook =
        let (o, run, f) = find_chan_link-Finds s v cli chan in found hook o run f
