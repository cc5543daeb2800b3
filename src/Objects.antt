-- ===== src/Objects.antt =====
-- server/object.c and what it calls of server/shot.c: the pool of the objects of the game.
pub mod World
pub mod Loops
pub mod Pool
pub mod Settle
pub mod Removal
pub mod Refill
pub mod Aging
pub mod Visit
pub mod Timeout
pub mod RoundEnd
mod Examples
