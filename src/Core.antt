-- ===== src/Core.antt =====
-- core/: the replicated data types and the hash ring.
pub mod Crdt
