-- ===== src/Tests/Channel.antt =====
-- modules/ircd/channel.c: a channel with one member.
use ithildin.Base.{
  ℕ, ◌+◌, ◌^◌, ◌≤◌, ◌<◌, ◌≡◌, refl, sym, true, none, some, List, [], ◌∷◌, arith, ◌==◌,
  if◌then◌else◌, u32, length, length-replicate,
}
use ithildin.Hash
use ithildin.Hash.Key.{Memory}
use mathlib.Core.Option
use ithildin.Hash.Placed
use ithildin.Hash.Placed.{IsPlaced-replicate, home}
use ithildin.Hash.Occurs.{count-replicate}
use ithildin.Tests.Hash.{memory, empty, one_entry, one_entry-IsValid, one_entry-count}
use ithildin.Channel.{
  Link, Notice, channel_del, channel_destroy, State, write_name, find_chan_link, find_user,
  add_to_channel, del_from_channel,
}
use ithildin.Channel.Walk.{count}
use ithildin.Channel.Valid.{IsValid, find_user-find_chan_link}
use ithildin.Channel.Join.{Joins, add_to_channel-Joins}
use ithildin.Channel.Leave.{Leaves, del_from_channel-Leaves}
use ithildin.Channel.Create.{Creates, create_channel-Creates}

abbrev pub joined : Link
joined = record { cli = 7; chan = 305; flags = 1; bans = 0 }

-- The extension data is the list of notices.
abbrev pub chat : State (List Notice)
chat = record {
  channels = 305 ∷ [];
  stats = 1;
  table = one_entry;
  memory = memory;
  onchannel = λ k. 1;
  users = λ k. if k == 305 then 40 ∷ [] else [];
  created = λ k. 0;
  chans = λ c. if c == 7 then 40 ∷ [] else [];
  links = λ l. if l == 40 then some joined else none;
  avail = b'n' ∷ [];
  ext = [];
}

abbrev log : Notice → List Notice → List Notice
log n ns = n ∷ ns

abbrev leave_alone : ℕ → ℕ → List Notice → List Notice
leave_alone mode chan ns = ns

pub chat-IsValid : IsValid chat
unfolding count
chat-IsValid = record {
  in_users = λ k l. ground arith;
  in_chans = λ c l. ground arith;
  counted = λ k h. ground (arith, h);
  small = λ k h. ground (arith, h);
  live = λ l link e. ground (arith, e);
  single = λ k. ground arith;
  alone = λ l m link other e f a b. ground (arith, e, f);
  stats = refl;
  hashed = one_entry-IsValid;
  tabled = λ k. omega (arith, one_entry-count k);
}

find_user-find_chan_link_example : find_user 7 305 chat ≡ find_chan_link 7 305 chat
find_user-find_chan_link_example = find_user-find_chan_link chat chat-IsValid 7 305

there : 0 < count 305 chat.channels
unfolding count
there = omega arith

outside : find_chan_link 8 305 chat ≡ some none
unfolding find_chan_link
outside = refl

spare : length (chat.users 305) + 1 < u32
spare = omega arith

add_to_channel-Joins_example :
    Joins log leave_alone 41 8 305 true chat chat-IsValid there refl spare outside
      (add_to_channel log leave_alone 41 8 305 true chat)
add_to_channel-Joins_example =
    add_to_channel-Joins log leave_alone 41 8 305 true chat chat-IsValid there refl spare outside

del_from_channel-Leaves_example :
    (t : State (List Notice)) × (del_from_channel log leave_alone 7 305 true chat ≡ some t)
    × Leaves log leave_alone 7 305 chat t
del_from_channel-Leaves_example =
    del_from_channel-Leaves log leave_alone 7 305 chat chat-IsValid there true

-- The last member leaves: the notices are those of the exit and of the end.
ended :
    Option.map
      (λ (t : State (List Notice)). t.ext)
      (del_from_channel log leave_alone 7 305 true chat)
    ≡ some (channel_destroy 305 ∷ channel_del 40 ∷ [])
unfolding del_from_channel
ended = refl

-- No channel is there yet.
abbrev deserted : State (List Notice)
deserted = record chat {
  channels = [];
  stats = 0;
  table = empty;
  users = λ k. [];
  chans = λ c. [];
  links = λ l. none;
}

empty-IsValid : (memory : Memory) → Placed.IsValid memory empty
empty-IsValid memory = record {
  sound = record {
    width = length-replicate {A = List Hash.Hashent} 64 [];
    nonempty = omega arith;
    bounded = omega arith;
    counted = sym (count-replicate 0 64).1;
    placed = IsPlaced-replicate (home memory empty) 0 64;
  };
  load = omega arith;
}

deserted-IsValid : IsValid deserted
unfolding count
deserted-IsValid = record {
  in_users = λ k l. refl;
  in_chans = λ c l. refl;
  counted = λ k h. absurd (omega arith);
  small = λ k h. absurd (omega arith);
  live = λ l link e. cc;
  single = λ k. omega arith;
  alone = λ l m link other e f a b. cc;
  stats = refl;
  hashed = empty-IsValid memory;
  tabled = λ k. (count-replicate k 64).0;
}

no_channel : count 500 deserted.channels ≡ 0
unfolding count
no_channel = refl

still_hashed : Placed.IsValid (write_name 500 3 (b'#' ∷ b'c' ∷ []) memory) empty
still_hashed = empty-IsValid (write_name 500 3 (b'#' ∷ b'c' ∷ []) memory)

few : 64 ≤ 2 ^ 28
few = omega arith

create_channel-Creates_example :
    (t : State (List Notice)) × Creates log leave_alone 500 3
      (b'#' ∷ b'c' ∷ [])
      100
      deserted
      deserted-IsValid
      no_channel
      still_hashed
      few
      t
create_channel-Creates_example =
    create_channel-Creates log leave_alone 500 3 (b'#' ∷ b'c' ∷ []) 100 deserted deserted-IsValid
      no_channel still_hashed few
