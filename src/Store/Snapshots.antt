-- ===== src/Store/Snapshots.antt =====
-- store/mesh_store.go: `CreateSnapshot`, `RestoreFromLatestSnapshot` and the recovery at startup, for
-- the parts of a snapshot that persistence/ models.
pub mod Roundtrip
pub mod Loss
use toll_mesh_store.Common.{ℕ, String, Map, Bytes, lookup_in, ◌∷◌, List, []}
use toll_mesh_store.Core.Crdt.{GCounter, or_zero}
use toll_mesh_store.Core.Crdt
use toll_mesh_store.Persistence.{
  Snapshot, LoadError, nothing, loaded, failed, load_latest_snapshot, replay_wal, rotate_wal,
}
use toll_mesh_store.Persistence
use toll_mesh_store.Store.{CacheEntry, Cache, MeshStore, expiry_of, apply_wal}
use toll_mesh_store.Store.Gossip.{
  or_no_name, or_no_ttl, copy_values, copy_ttls, copy_timestamps, copy_nodes, copy_cache,
  copy_metrics, stamp_local_metrics,
}

unfoldable pub snapshot_limiters : Map GCounter → Map (Map ℕ)
snapshot_limiters [] = []
snapshot_limiters ((key, counter) ∷ rest) = (key, Crdt.snapshot counter) ∷ snapshot_limiters rest

-- The copy that `CreateSnapshot` takes under the read lock; the engine stamps it later.
unfoldable pub copy_state : MeshStore → Snapshot
unfolding snapshot_limiters
copy_state ms = record {
  format_version = 0;
  timestamp = 0;
  rate_limiters = snapshot_limiters ms.rate_limiters;
  replay_protection = Crdt.snapshot_set ms.replay_protection;
  cache = copy_cache copy_values ms.cache;
  cache_ttl = copy_cache copy_ttls ms.cache;
  cache_timestamp = copy_cache copy_timestamps ms.cache;
  cache_node = copy_cache copy_nodes ms.cache;
  metrics = copy_metrics ms.cluster_metrics;
}

-- The two writes to disk. They are apart, since the store's lock is free between them.
unfoldable pub write_snapshot : MeshStore → Snapshot → ℕ → MeshStore
write_snapshot ms snap now = record ms {
  persistence = Persistence.create_snapshot ms.persistence now snap;
}

unfoldable pub rotate : MeshStore → MeshStore
rotate ms = record ms { persistence = rotate_wal ms.persistence }

-- `CreateSnapshot` with no other call in between.
unfoldable pub create_snapshot : MeshStore → ℕ → MeshStore
unfolding write_snapshot rotate
create_snapshot ms now =
    let stamped = stamp_local_metrics ms in rotate (write_snapshot stamped (copy_state stamped) now)

unfoldable pub restore_limiters : Map (Map ℕ) → Map GCounter
restore_limiters [] = []
restore_limiters ((key, counts) ∷ rest) =
    (key, Crdt.restore_g_counter (Crdt.copy_into [] counts)) ∷ restore_limiters rest

unfoldable pub restore_entry : Snapshot → String → String → Bytes → CacheEntry
restore_entry snap ns key v = record {
  value = v;
  expires_at = expiry_of (or_no_ttl (lookup_in ns key snap.cache_ttl));
  timestamp = or_zero (lookup_in ns key snap.cache_timestamp);
  node = or_no_name (lookup_in ns key snap.cache_node);
}

unfoldable pub restore_namespace : Snapshot → String → Map Bytes → Map CacheEntry
unfolding restore_entry
restore_namespace snap ns [] = []
restore_namespace snap ns ((key, v) ∷ rest) =
    (key, restore_entry snap ns key v) ∷ restore_namespace snap ns rest

unfoldable pub restore_cache : Snapshot → Map (Map Bytes) → Cache
unfolding restore_namespace
restore_cache snap [] = []
restore_cache snap ((ns, kv) ∷ rest) = (ns, restore_namespace snap ns kv) ∷ restore_cache snap rest

unfoldable pub apply_snapshot : MeshStore → Snapshot → MeshStore
unfolding restore_limiters restore_cache
apply_snapshot ms snap = record ms {
  rate_limiters = restore_limiters snap.rate_limiters;
  replay_protection = Crdt.restore_g_set snap.replay_protection;
  cache = restore_cache snap snap.cache;
  cluster_metrics = copy_metrics snap.metrics;
}

pub data Recovery : Type 0 where
  recovered : MeshStore → Recovery
  refused : LoadError → Recovery

unfoldable pub recover_from_disk : MeshStore → Recovery
recover_from_disk ms = elim (load_latest_snapshot ms.persistence) [
  | nothing ↦ recovered (apply_wal ms (replay_wal ms.persistence 0))
  | loaded snap ↦
      recovered (apply_wal (apply_snapshot ms snap) (replay_wal ms.persistence snap.timestamp))
  | failed e ↦ refused e
]

pub data Restore : Type 0 where
  restored : MeshStore → Restore
  no_snapshot : Restore
  not_restored : LoadError → Restore

unfoldable pub restore_from_latest_snapshot : MeshStore → Restore
restore_from_latest_snapshot ms = elim (load_latest_snapshot ms.persistence) [
  | nothing ↦ no_snapshot
  | loaded snap ↦ restored (apply_snapshot ms snap)
  | failed e ↦ not_restored e
]
