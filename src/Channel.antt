-- ===== src/Channel.antt =====
-- modules/ircd/channel.c: channels and their members. Channels, clients and the links between
-- them have addresses; a link stands in the list of its channel and in the list of its client.
-- What the hooks and the functions of the modes do is a parameter: it changes the extension data.
pub mod Create
pub mod Destroy
pub mod Drop
pub mod Join
pub mod Leave
pub mod Modes
pub mod Valid
pub mod Walk
use ithildin.Base.{
  ℕ, ◌+◌, ◌-◌, ◌%◌, Bool, ◌&&◌, Option, none, some, List, [], ◌∷◌, leb, ◌==◌, if◌then◌else◌, u32,
  get_or, take,
}
use ithildin.Text.Case.{Bytes}
use ithildin.Hash.Key.{Memory}
use ithildin.Hash.{Table, hash_insert, hash_delete}

-- `struct chanlink`
pub record Link : Type 0 where
  pub cli : ℕ
  pub chan : ℕ
  pub flags : ℕ
  pub bans : ℕ

-- The events of channels, with the link or the channel that their hooks get.
pub data Notice : Type 0 where
  channel_create channel_add channel_del channel_destroy : ℕ → Notice

-- `ircd.lists.channels` and its length, `ircd.hashes.channel` and the memory of the names; the
-- fields of channels (`onchannel`, `users`, `created`) and clients (`chans`) at their addresses;
-- the links that are allocated.
pub record State (X : Type 0) : Type 0 where
  pub channels : List ℕ
  pub stats : ℕ
  pub table : Table
  pub memory : Memory
  pub onchannel : ℕ → ℕ
  pub users : ℕ → List ℕ
  pub created : ℕ → ℕ
  pub chans : ℕ → List ℕ
  pub links : ℕ → Option Link
  pub avail : Bytes
  pub ext : X

-- A write at an address.
unfoldable pub update : {A : Type 0} → (ℕ → A) → ℕ → A → ℕ → A
update f k v i = if k == i then v else f i

-- `LIST_REMOVE`
unfoldable pub unlink : ℕ → List ℕ → List ℕ
unlink l [] = []
unlink l (x ∷ xs) = if x == l then xs else x ∷ unlink l xs

-- The first link of a list that passes a test; `none` is the use of a link that was freed.
unfoldable pub walk : (Link → Bool) → (ℕ → Option Link) → List ℕ → Option (Option ℕ)
walk test links [] = some none
walk test links (l ∷ ls) = elim (links l) [
  | none ↦ none
  | some link ↦ if test link then some (some l) else walk test links ls
]

-- `strncpy` of a name into memory of zeros at the address `p`, the NUL behind it included.
unfoldable pub write_name : ℕ → ℕ → Bytes → Memory → Memory
write_name p limit name memory = record memory {
  byte = λ i.
      if leb p i && leb i (p + limit) then get_or (take limit name) (i - p) 0 else memory.byte i;
}

module _ {X : Type 0} where
  unfoldable pub find_chan_link : ℕ → ℕ → State X → Option (Option ℕ)
  unfolding walk
  find_chan_link cli chan s = walk (λ link. link.chan == chan) s.links (s.chans cli)

  -- The loop of `chanmode_isprefix`, over the list of the channel.
  unfoldable pub find_user : ℕ → ℕ → State X → Option (Option ℕ)
  unfolding walk
  find_user cli chan s = walk (λ link. link.cli == cli) s.links (s.users chan)

module _ {X : Type 0} (notify : Notice → X → X) (clear : ℕ → ℕ → X → X) where
  -- `p` is the address that `calloc` gives; `none` is a hash table that cannot grow.
  unfoldable pub create_channel : ℕ → ℕ → Bytes → ℕ → State X → Option (State X)
  unfolding update write_name hash_insert
  create_channel p limit name now s =
      let memory = write_name (p + s.table.keyoffset) limit name s.memory in
      elim (hash_insert memory 2 s.table p) [
        | none ↦ none
        | some table ↦ some (record s {
          channels = p ∷ s.channels;
          stats = s.stats + 1;
          table = table;
          memory = memory;
          onchannel = update s.onchannel p 0;
          users = update s.users p [];
          created = update s.created p now;
          ext = notify (channel_create p) s.ext;
        })
      ]

  -- `l` is the address that `malloc` gives.
  unfoldable pub add_to_channel : ℕ → ℕ → ℕ → Bool → State X → State X
  unfolding update
  add_to_channel l cli chan hook s =
      let link : Link = record { cli = cli; chan = chan; flags = 0; bans = 0 } in
      record s {
        onchannel = update s.onchannel chan ((s.onchannel chan + 1) % u32);
        users = update s.users chan (l ∷ s.users chan);
        chans = update s.chans cli (l ∷ s.chans cli);
        links = update s.links l (some link);
        ext = if hook then notify (channel_add l) s.ext else s.ext;
      }

  -- The functions of the modes are called for each mode in use.
  unfoldable pub clear_modes : Bytes → ℕ → X → X
  clear_modes [] chan x = x
  clear_modes (mode ∷ avail) chan x = clear_modes avail chan (clear mode chan x)

  -- A channel that is freed is one whose address has left `channels`.
  unfoldable pub destroy_channel : ℕ → State X → State X
  unfolding clear_modes hash_delete unlink
  destroy_channel chan s = record s {
    ext = clear_modes s.avail chan (notify (channel_destroy chan) s.ext);
    table = (hash_delete s.memory s.table chan).1;
    channels = unlink chan s.channels;
    stats = s.stats - 1;
  }

  -- The link is unlinked from both lists and freed.
  unfoldable pub drop_link : ℕ → ℕ → ℕ → Bool → State X → State X
  unfolding update unlink
  drop_link l cli chan hook s = record s {
    ext = if hook then notify (channel_del l) s.ext else s.ext;
    users = update s.users chan (unlink l (s.users chan));
    chans = update s.chans cli (unlink l (s.chans cli));
    links = update s.links l none;
    onchannel = update s.onchannel chan ((s.onchannel chan + u32 - 1) % u32);
  }

  unfoldable pub destroy_empty : ℕ → State X → State X
  unfolding destroy_channel
  destroy_empty chan s = if s.onchannel chan == 0 then destroy_channel chan s else s

  unfoldable pub del_from_channel : ℕ → ℕ → Bool → State X → Option (State X)
  unfolding find_chan_link drop_link destroy_empty
  del_from_channel cli chan hook s = elim (find_chan_link cli chan s) [
    | none ↦ none
    | some none ↦ some (destroy_empty chan s)
    | some (some l) ↦ some (destroy_empty chan (drop_link l cli chan hook s))
  ]
