-- ===== src/Examples.antt =====
-- The theorems at concrete inputs.
mod Wire
mod Buffers
mod Streams
mod Sessions
mod Plain
mod Messages
mod Servers
mod Generator
mod Readers
