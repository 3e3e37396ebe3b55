-- ===== src/Persistence/Tests.antt =====
-- The log and the snapshots, each on a small engine.
use toll_mesh_store.Common.{none, [], ◌∷◌}
use toll_mesh_store.Persistence.{
  PersistenceEngine, consume, log_operation, new_persistence_engine, Snapshot,
}

abbrev engine : PersistenceEngine
engine = log_operation new_persistence_engine 5 consume "k" none "" 0 "" 0

abbrev copied : Snapshot
copied = record {
  format_version = 0;
  timestamp = 0;
  rate_limiters = ("k", ("a", 2) ∷ []) ∷ [];
  replay_protection = "r" ∷ [];
  cache = [];
  cache_ttl = [];
  cache_timestamp = [];
  cache_node = [];
  metrics = [];
}
