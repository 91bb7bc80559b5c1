-- ===== src/Network.antt =====
-- The network layer (src/network).
pub mod Queue
pub mod Payloads
pub mod Logger
pub mod Sender
pub mod Receiver
pub mod Link
pub mod Processor
pub mod Marshaller
pub mod Client
pub mod Server
pub mod Download
mod Tests
mod EndpointTests
mod DownloadTests
