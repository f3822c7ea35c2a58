-- ===== src/Lib.antt =====
-- ithildin: the core library of the Ithildin IRC server, and parts of its IRC module.
--
-- The server is a main program (source/) that loads modules (modules/). The library under source/
-- gives the modules strings, hash tables, timers and events; the IRC module (modules/ircd/) keeps
-- clients, channels and servers in tables of the library, matches masks with its pattern matcher
-- and compares nicknames under a map of characters. What stands below is modelled bottom-up.
--
--   Base            numbers, Booleans, lists, integers, bits; not about the program
--   Text.Case       source/string.c: tolowertab, touppertab; the macros of
--                   include/ithildin/string.h
--   Text.Compare    source/string.c: ith_strcasecmp, ith_strncasecmp, ith_strcmp, ith_strncmp
--   Text.Copy       source/string.c: ith_strcat, ith_strncat, ith_strchr, ith_strrchr, ith_strcpy,
--                   ith_strncpy, ith_strdup, ith_strlen
--   Text.Split      source/string.c: ith_strsep
--   Text.Match      source/string.c: _match, match
--   Text.Address    source/string.c: ipmatch
--   Text.Time       source/string.c: str_conv_int, str_conv_time, time_conv_str
--   Text.Encode     source/string.c: str_base_encode, str_base_decode and their tables
--   Text.Truth      source/string.c: str_conv_bool, bool_conv_str
--   Hash            source/hash.c: create_hash_table, resize_hash_table, hash_insert, hash_delete,
--                   hash_find; Hash.Key has hash_get_key_hash
--   Timer           source/timer.c: create_timer, find_timer, destroy_timer, adjust_timer,
--                   insert_timer; Timer.Exec has exec_timers
--   IrcString       modules/ircd/ircstring.c: istr_translate, istr_map, istr_okay, istrcmp,
--                   istrncmp
--   Event           source/event.c: create_event, add_hook_after, add_hook_before,
--                   add_hook_really, find_hook, remove_hook; Event.Call has hook_event
--   Class           modules/ircd/class.c: create_class, destroy_class, add_to_class,
--                   del_from_class
--   Privilege       modules/ircd/privilege.c: create_privilege, destroy_privilege, find_privilege,
--                   create_privilege_set, find_privilege_set, privilege_find_setting,
--                   set_privilege_in_set
--   Throttle        modules/ircd/addons/throttle.c: create_throttle, throttle_stage1_hook,
--                   throttle_conf_hook, throttle_timer_hook
--   Channel         modules/ircd/channel.c: create_channel, add_to_channel, del_from_channel,
--                   destroy_channel, find_chan_link; Channel.Modes has chanmode_request,
--                   chanmode_release, chanmode_build_lists, and Channel.Modes.Calls
--                   chanmode_set, chanmode_unset, chanmode_query, chanmode_setprefix,
--                   chanmode_unsetprefix, chanmode_isprefix, chanmode_getprefixes
--   Acl             modules/ircd/addons/acl.c: create_acl, destroy_acl; Acl.Key has get_acl_hash,
--                   Acl.Find find_acl, Acl.Expire acl_add_timer and acl_timer_hook, Acl.Stages
--                   acl_stage1_hook and acl_stage2_hook, Acl.Stage3 acl_stage3_hook
--   Tests           the theorems at concrete inputs
--
-- Strings and memory. A C string that is only read is the list of its bytes up to the NUL, and a
-- byte is a number below 256; plain char is signed, which `schar` writes out. A comparison that
-- goes on behind the NUL of a string gives none. Where the code writes, the object is the list of
-- its cells, and an access beyond the last cell gives none. Pointers into a string are offsets or
-- the rest of the string. In hash.c a pointer is an address and the memory is a function from
-- addresses to bytes, with strlen of the C library beside it; the function behind `cmpsym` is a
-- parameter, and so are strtol and the decimal sprintf in Text.Time, atoi, inet_pton and
-- get_address_type. The functions of hooks are a parameter of Event: what one answers, and what it
-- asks of the event while it is called; so are the clock and the callbacks of timers in
-- Timer.Exec, where a pointer to a timer is its reference, and the configuration of Privilege. A
-- hook has an address, and the walk goes on from the hook at it. In Channel the fields of
-- channels, clients and links are functions from addresses; a link that was freed is none, and
-- reading it gives none. The functions of modes and of the hooks of channels are parameters that
-- change the extension data. An entry of Acl stands in the list of its stage, and its address in
-- the list of all; the entries are placed into classes by Class, end by Timer, and the names of
-- channels are kept in a table of Hash. What hostmatch, ipmatch and match answer to the stages of
-- Acl is a parameter, so that the theorems on them hold for each.
--
-- Bounds. `uint32_t` and `uint64_t` arithmetic is taken modulo 2 ^ 32 and 2 ^ 64. A table is
-- followed up to 2 ^ 29 buckets, where `size * 6` still fits 32 bits. Times are natural numbers,
-- but for those that str_conv_time reads: what strtol gives is cut to an int of 32 bits, and may
-- be negative; a setting of Throttle below 0 is not followed. Allocation succeeds.
--
-- Fuel. `double_until` has 32 rounds, one for each bit. `hash_insert` calls `resize_hash_table`,
-- which calls `hash_insert`: two rounds are enough, since an insertion during a resize finds
-- room. `create_timer` looks for a free reference: one round more than there are timers is
-- enough. `strsep` is called one time more than there are delimiters, and once more to end. The
-- depth of nested calls of `match` is that of the code, 12. `hook_event` has a round for each
-- hook it comes to; where a function makes at most k requests, n (k + 1) + 1 rounds are enough
-- for n hooks. `exec_timers` has a round for each timer it comes to, one more than there are due
-- timers being enough while the clock stands still. `str_base_encode` has a round for each byte
-- and one to end. The search of a setting has a round for each step of includes; one more than
-- the longest chain of includes is enough.
--
-- Not modelled: the counters of DEBUG_CODE, log messages, destroy_hash_table, destroy_event and
-- destroy_privilege_set, which free; from source/string.c hostmatch and vsnprintf; the table of
-- throttles; from modules/ircd/channel.c channel_check_access, chanmode_getmodes and
-- channel_mdext_iter; from modules/ircd/addons/acl.c acl_conf_hook and acl_force_check; sockets,
-- the loader of modules and the rest of the IRC module, which input and output pervade; the BSD
-- list macros of include/ithildin/queue.h, for which lists stand; source/md5.c and
-- source/contrib/, which are third-party code.
pub mod Base
pub mod Text
pub mod Hash
pub mod Timer
pub mod IrcString
pub mod Event
pub mod Class
pub mod Privilege
pub mod Throttle
pub mod Acl
pub mod Channel
mod Tests
