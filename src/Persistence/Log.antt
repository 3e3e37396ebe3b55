-- ===== src/Persistence/Log.antt =====
-- The log and the snapshot directory.
use toll_mesh_store.Common.{
  ℕ, ◌<◌, ◌≡◌, refl, keep-append, String, Bytes, Option, some, List, [], ◌∷◌, ◌++◌, arith, ltb,
  ◌==◌, keep, if◌then◌else◌,
}
use toll_mesh_store.Persistence.{
  Snapshot, WalEntry, Operation, PersistenceEngine, log_operation, replay_wal, create_snapshot,
  rotate_wal, loaded, load_latest_snapshot, last_snapshot, stored_value, current_format_version,
}

last_snapshot-append : (ss : List Snapshot) (s : Snapshot) → last_snapshot (ss ++ s ∷ []) ≡ some s
unfolding last_snapshot
last_snapshot-append [] s = refl
last_snapshot-append (t ∷ []) s = refl
last_snapshot-append (t ∷ u ∷ rest) s = last_snapshot-append (u ∷ rest) s

-- The snapshot that was written last is the one that loads, stamped with the time of its writing,
-- also after the log has been rotated.
pub load-create_snapshot :
    (pe : PersistenceEngine) (now : ℕ) (s : Snapshot)
    → load_latest_snapshot (rotate_wal (create_snapshot pe now s))
      ≡ loaded (record s { timestamp = now; format_version = current_format_version })
unfolding load_latest_snapshot create_snapshot rotate_wal
load-create_snapshot pe now s = ground (
  arith,
  last_snapshot-append pe.snapshots
      (record s { timestamp = now; format_version = current_format_version }),
)

-- What is logged after the cutoff is replayed, behind what was replayed before it.
pub replay-log_operation :
    (pe : PersistenceEngine) (after now : ℕ) (op : Operation) (key : String) (value : Option Bytes)
    (namespace : String) (expires_at : ℕ) (node : String) (version : ℕ)
    → after < now
    → replay_wal (log_operation pe now op key value namespace expires_at node version) after
      ≡ replay_wal pe after
        ++ record {
          timestamp = now;
          operation = op;
          key = key;
          value = stored_value value;
          namespace = namespace;
          expires_at = expires_at;
          node = node;
          version = if version == 0 then now else version;
        }
          ∷ []
unfolding replay_wal log_operation keep
replay-log_operation pe after now op key value namespace expires_at node version h =
    rw (keep-append (λ (e : WalEntry). ltb after e.timestamp) pe.wal _) (ground arith)
