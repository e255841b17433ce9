-- ===== src/Network.antt =====
-- src/network: the reactor.
pub mod Addr
pub mod Buffer
pub mod Demultiplex
pub mod Channel
pub mod Connection
pub mod Group
pub mod Reactor
pub mod Server
pub mod Queue
pub mod Loop
pub mod Socket
