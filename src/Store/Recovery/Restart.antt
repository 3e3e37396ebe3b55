-- ===== src/Store/Recovery/Restart.antt =====
-- A restart after any operations of the node itself.
use toll_mesh_store.Common.{refl, String, lookup, lookup_in, lookup_in, List, [], ◌∷◌, keep}
use toll_mesh_store.Persistence.{replay_wal, new_persistence_engine}
use toll_mesh_store.Store.{MeshStore, new_mesh_store, apply_wal}
use toll_mesh_store.Store.Recovery.{
  replayed, Recovered, LocalOp, step, IsRecovered, run, AllClocked,
}
use toll_mesh_store.Store.Recovery.Steps.{step-IsRecovered}

run-IsRecovered :
    (ms : MeshStore) (ops : List LocalOp)
    → AllClocked ops
    → IsRecovered ms
    → IsRecovered (run ms ops)
unfolding run
run-IsRecovered ms [] h r = r
run-IsRecovered ms (op ∷ ops) h r =
    run-IsRecovered (step ms op) ops h.1 (step-IsRecovered ms op h.0 r)

new-IsRecovered : (name : String) → IsRecovered (new_mesh_store name new_persistence_engine)
unfolding replayed new_mesh_store new_persistence_engine apply_wal replay_wal keep lookup_in lookup
new-IsRecovered name = record {
  node_name = refl;
  counts = λ key. refl;
  seen_keys = λ key. refl;
  cells = λ ns key. tt;
}

-- A restart that replays the whole log of a node's own operations gives back every rate limit
-- count, every key that was seen and every cell of the cache: the value as JSON text keeps its
-- bytes, the expiry in whole milliseconds, the writer, and a version that is no earlier.
pub restart_recovers :
    (name : String) (ops : List LocalOp)
    → AllClocked ops
    → let live = run (new_mesh_store name new_persistence_engine) ops in
      Recovered live (replayed live.node_name live.persistence)
restart_recovers name ops h =
    run-IsRecovered (new_mesh_store name new_persistence_engine) ops h (new-IsRecovered name)
