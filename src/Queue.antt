-- ===== src/Queue.antt =====
-- queue/types.go and queue/queue.go: the messages that wait to be put on-chain.
pub mod Types
pub mod Sequence
pub mod Batch
pub mod Add
pub mod Broadcast
pub mod Listen
