-- ===== src/Tests.antt =====
-- The theorems at concrete inputs.
mod Text
mod Hash
mod Timer
mod Irc
mod Class
mod Time
mod Event
mod Throttle
mod Privilege
mod Encode
mod Address
mod Acl
mod Channel
mod Modes
