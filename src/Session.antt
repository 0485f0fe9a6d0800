-- ===== src/Session.antt =====
-- The writer of one side and the reader of the other, over transports that come and go.
mod Between
mod Invariant
mod Same
mod Writes
mod Staging
mod Live
pub mod Steps
mod Waiting
mod Peer
pub mod Delivery
pub mod ExactlyOnce
