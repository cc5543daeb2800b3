-- ===== src/Net.antt =====
-- common/net.c: socket buffers, and the packets that are printed into them and scanned from them.
pub mod Sockbuf
pub mod Recv
pub mod Format
pub mod Print
pub mod Scan
pub mod Wire
pub mod Printed
pub mod Scanned
pub mod RoundTrip
pub mod Valid
pub mod Answers
pub mod Flushing
pub mod Fetching
pub mod Reading
pub mod Bounds
pub mod Overlong
mod Examples
