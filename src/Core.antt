-- ===== src/Core.antt =====
-- src/core: what the program does that neither draws nor talks to a peer.
pub mod Update
pub mod Poll
pub mod Context
pub mod Fnv
pub mod Assets
mod Tests
mod AssetTests
