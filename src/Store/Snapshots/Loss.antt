-- ===== src/Store/Snapshots/Loss.antt =====
-- Writes that land while a snapshot is on its way to disk.
use toll_mesh_store.Common.{ℕ, ◌≡◌, refl, ◌∙◌, String, UniqueIn, List, [], ◌∷◌, arith, keep}
use toll_mesh_store.Persistence.{
  Snapshot, PersistenceEngine, replay_wal, rotate_wal, loaded, last_snapshot, load_latest_snapshot,
}
use toll_mesh_store.Persistence
use toll_mesh_store.Persistence.Log.{load-create_snapshot}
use toll_mesh_store.Store.{MeshStore, new_mesh_store, consume_key, seen_key, set_key}
use toll_mesh_store.Store.Recovery.{LocalOp, consumes, sees, sets, step, run}
use toll_mesh_store.Store.Snapshots.{
  copy_state, apply_snapshot, write_snapshot, rotate, recovered, recover_from_disk,
}
use toll_mesh_store.Store.Snapshots.Roundtrip.{
  CountersValid, Holds, apply_snapshot-Holds, recover_loaded,
}

step-snapshots :
    (ms : MeshStore) (op : LocalOp) → (step ms op).persistence.snapshots ≡ ms.persistence.snapshots
unfolding step consume_key seen_key set_key Persistence.log_operation
step-snapshots ms (consumes key limit window logged now latency) = ground arith
step-snapshots ms (sees key logged latency) = ground arith
step-snapshots ms (sets ns key v ttl ts now logged latency) = refl

run-snapshots :
    (ms : MeshStore) (ops : List LocalOp)
    → (run ms ops).persistence.snapshots ≡ ms.persistence.snapshots
unfolding run
run-snapshots ms [] = refl
run-snapshots ms (op ∷ ops) = run-snapshots (step ms op) ops ∙ step-snapshots ms op

load_of_snapshots :
    (pe pe' : PersistenceEngine)
    → pe.snapshots ≡ pe'.snapshots
    → load_latest_snapshot pe ≡ load_latest_snapshot pe'
unfolding load_latest_snapshot
load_of_snapshots pe pe' e = ground (arith, e)

-- The calls that land after a snapshot has been stamped and before the log is rotated are lost: a
-- restart comes back with what the store held when the snapshot was copied, whatever they were.
pub writes_before_rotation_lost :
    (ms : MeshStore) (name : String) (now : ℕ) (ops : List LocalOp)
    → UniqueIn ms.cache
    → CountersValid ms.rate_limiters
    → let crashed = rotate (run (write_snapshot ms (copy_state ms) now) ops) in
      (back : MeshStore) × (recover_from_disk (new_mesh_store name crashed.persistence)
        ≡ recovered back)
      × Holds ms back
unfolding rotate write_snapshot new_mesh_store replay_wal rotate_wal keep
writes_before_rotation_lost ms name now ops u v =
    let written = write_snapshot ms (copy_state ms) now in
    let crashed = rotate (run written ops) in
    let fresh = new_mesh_store name crashed.persistence in
    let snap = record (copy_state ms) { timestamp = now; format_version = 1 } in
    (
      apply_snapshot fresh snap,
      recover_loaded fresh snap
          (load_of_snapshots crashed.persistence (rotate_wal written.persistence)
              (run-snapshots written ops)
            ∙ load-create_snapshot ms.persistence now (copy_state ms))
          refl,
      apply_snapshot-Holds ms fresh now u v,
    )
