-- ===== src/Talk.antt =====
-- What players say to each other: server/netserver.c from `Handle_talk`, and server/command.c, the
-- search for a player.
pub mod Lookup
pub mod Messages
pub mod Searches
mod Examples
pub mod Copies
pub mod Addressed
pub mod Delivery
