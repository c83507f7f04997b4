-- ===== src/Protocol.antt =====
-- src/cluster/protocol.rs: the messages between the coordinator and its workers, and their validation.
pub mod Dependencies
mod Ids
mod Stages
mod Tasks
mod Blocks
mod Messages
unfoldable pub use Ids.*
unfoldable pub use Stages.*
unfoldable pub use Tasks.*
unfoldable pub use Blocks.*
unfoldable pub use Messages.*
