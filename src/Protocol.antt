-- ===== src/Protocol.antt =====
-- src/protocol.rs and src/discovery.rs: the mirrored wire types. The order of constructors and
-- fields is the wire's. An `XorName` is 32 bytes.
mod Chunk
mod Discovery
pub mod Display
pub use Chunk.*
pub use Discovery.*
