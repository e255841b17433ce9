-- ===== src/Pubsub.antt =====
-- src/pubsub: who is told of which event.
pub mod Event
pub mod Center
pub mod Ids
pub mod Workers
pub mod Instance
