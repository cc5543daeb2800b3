-- ===== src/Connections.antt =====
-- server/netserver.c: the connections of the clients.
pub mod Server
pub mod Reliable
pub mod Outcomes
pub mod Buffers
pub mod Sending
pub mod Packeting
pub mod Stream
pub mod Slices
pub mod Acks
pub mod Acked
pub mod RoundTrips
pub mod Handshake
pub mod Login
pub mod Invariant
pub mod Safety
pub mod Steps
pub mod Commands
pub mod Actions
pub mod Input
pub mod Requests
pub mod Welcome
pub mod Configuring
pub mod Entering
pub mod Arrival
pub mod Types
pub mod Packets
pub mod Introductions
pub mod Bursts
pub mod Room
pub mod Frames
pub mod Powers
pub mod Obeying
pub mod Speaking
pub mod Framed
pub mod Rounds
pub mod Soundness
pub mod Joining
pub mod Runs
mod Session
mod Examples
