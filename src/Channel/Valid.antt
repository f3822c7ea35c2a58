-- ===== src/Channel/Valid.antt =====
-- The lists of channels and clients agree with the links, and both walks find the same link.
use ithildin.Base.{
  ℕ, ◌≤◌, ◌<◌, ◌≡◌, refl, sym, ap, ◌∙◌, ◌≢◌, true, Option, none, some, arith, ◌==◌, ==_iff, u32,
  length,
}
use ithildin.Hash.Placed
use ithildin.Hash.Occurs
use ithildin.Channel.{Link, State, find_chan_link, find_user}
use ithildin.Channel.Walk.{one_if, count, Walks, hit, miss, walk-Walks}

abbrev pub on_chan : ℕ → Option Link → ℕ
on_chan k none = 0
on_chan k (some link) = one_if (link.chan == k)

abbrev pub on_cli : ℕ → Option Link → ℕ
on_cli c none = 0
on_cli c (some link) = one_if (link.cli == c)

on_chan-some :
    (k : ℕ) (o : Option Link) → 0 < on_chan k o → (link : Link) × (o ≡ some link) × (link.chan ≡ k)
on_chan-some k none h = absurd (omega arith)
on_chan-some k (some link) h = (link, refl, ground arith)

on_cli-some :
    (c : ℕ) (o : Option Link) → 0 < on_cli c o → (link : Link) × (o ≡ some link) × (link.cli ≡ c)
on_cli-some c none h = absurd (omega arith)
on_cli-some c (some link) h = (link, refl, ground arith)

module _ {X : Type 0} where
  pub record IsValid (s : State X) : Type 0 where
    pub in_users : (k l : ℕ) → count l (s.users k) ≡ on_chan k (s.links l)
    pub in_chans : (c l : ℕ) → count l (s.chans c) ≡ on_cli c (s.links l)
    pub counted : (k : ℕ) → 0 < count k s.channels → s.onchannel k ≡ length (s.users k)
    pub small : (k : ℕ) → 0 < count k s.channels → length (s.users k) < u32
    pub live : (l : ℕ) (link : Link) → s.links l ≡ some link → 0 < count link.chan s.channels
    pub single : (k : ℕ) → count k s.channels ≤ 1
    -- a client has one link to a channel
    pub alone :
        (l m : ℕ) (link other : Link)
        → s.links l ≡ some link
        → s.links m ≡ some other
        → link.cli ≡ other.cli
        → link.chan ≡ other.chan
        → l ≡ m
    pub stats : s.stats ≡ length s.channels
    pub hashed : Placed.IsValid s.memory s.table
    pub tabled : (k : ℕ) → Occurs.count k s.table.table ≡ count k s.channels

  -- The link of a client and a channel, or none.
  pub data Finds (cli chan : ℕ) (s : State X) : Option ℕ → Type 0 where
    member :
        (l : ℕ) (link : Link)
        → s.links l ≡ some link
        → link.cli ≡ cli
        → link.chan ≡ chan
        → Finds cli chan s (some l)
    absent :
        ((l : ℕ) (link : Link) → s.links l ≡ some link → link.cli ≡ cli → link.chan ≢ chan)
        → Finds cli chan s none

  pub Finds-unique :
      {cli chan : ℕ} {s : State X} {o o' : Option ℕ}
      → IsValid s
      → Finds cli chan s o
      → Finds cli chan s o'
      → o ≡ o'
  Finds-unique v (member l link e a b) (member m other f c d) =
      ap some (v.alone l m link other e f (a ∙ sym c) (b ∙ sym d))
  Finds-unique v (member l link e a b) (absent all) = absurd (all l link e a b)
  Finds-unique v (absent all) (member l link e a b) = absurd (all l link e a b)
  Finds-unique v (absent all) (absent all') = refl

  module _ (s : State X) (v : IsValid s) (cli chan : ℕ) where
    finds_link :
        (o : Option ℕ)
        → Walks (λ link. link.chan == chan) s.links (s.chans cli) o
        → Finds cli chan s o
    finds_link o (hit l link c e t) =
        let i = v.in_chans cli l in
        let (link', e', same) = on_cli-some cli (s.links l) (omega arith) in
        let q : link' ≡ link = cc in member l link e (rw (← q) same) ((==_iff _ _).0 t)
    finds_link o (miss all) = absent (λ l link e c k.
        let i = v.in_chans cli l in
        let j = rw e at i in
        let n : (link.cli == cli) ≡ true = (==_iff link.cli cli).1 c in
        let f = all l link (omega (arith, rw n at j)) e in
        let g : (link.chan == chan) ≡ true = (==_iff link.chan chan).1 k in cc)

    finds_user :
        (o : Option ℕ)
        → Walks (λ link. link.cli == cli) s.links (s.users chan) o
        → Finds cli chan s o
    finds_user o (hit l link c e t) =
        let i = v.in_users chan l in
        let (link', e', same) = on_chan-some chan (s.links l) (omega arith) in
        let q : link' ≡ link = cc in member l link e ((==_iff _ _).0 t) (rw (← q) same)
    finds_user o (miss all) = absent (λ l link e c k.
        let i = v.in_users chan l in
        let j = rw e at i in
        let n : (link.chan == chan) ≡ true = (==_iff link.chan chan).1 k in
        let f = all l link (omega (arith, rw n at j)) e in
        let g : (link.cli == cli) ≡ true = (==_iff link.cli cli).1 c in cc)

    pub find_chan_link-Finds :
        (o : Option ℕ) × (find_chan_link cli chan s ≡ some o) × Finds cli chan s o
    unfolding find_chan_link
    find_chan_link-Finds =
        let (o, run, w) =
          walk-Walks (λ link. link.chan == chan) s.links (s.chans cli)
            (λ l c e. let i = v.in_chans cli l in let j = rw e at i in absurd (omega arith)) in
        (o, run, finds_link o w)

    -- The walk of `chanmode_isprefix` over the list of the channel finds the same link.
    pub find_user-Finds : (o : Option ℕ) × (find_user cli chan s ≡ some o) × Finds cli chan s o
    unfolding find_user
    find_user-Finds =
        let (o, run, w) =
          walk-Walks (λ link. link.cli == cli) s.links (s.users chan)
            (λ l c e. let i = v.in_users chan l in let j = rw e at i in absurd (omega arith)) in
        (o, run, finds_user o w)

    -- In a valid state the search of a link in the list of the client and the one in the list of
    -- the channel end with the same link, or both with none.
    pub find_user-find_chan_link : find_user cli chan s ≡ find_chan_link cli chan s
    find_user-find_chan_link =
        let (o, run, f) = find_user-Finds in
        let (o', run', f') = find_chan_link-Finds in run ∙ ap some (Finds-unique v f f') ∙ sym run'
