-- ===== src/Teams.antt =====
-- server/team.c: counts over the players, the choice of a team for a new player and of a base.
pub mod Players
pub mod Choice
pub mod Choosing
pub mod Finding
pub mod Balance
pub mod Bases
pub mod Counts
mod Examples
