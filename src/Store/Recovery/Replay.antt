-- ===== src/Store/Recovery/Replay.antt =====
-- Replaying a log that has one more entry.
use toll_mesh_store.Common.{
  ℕ, ◌<◌, ◌≡◌, refl, String, Bytes, Option, List, [], ◌∷◌, ◌++◌, arith, ◌==◌, if◌then◌else◌,
}
use toll_mesh_store.Persistence.{
  PersistenceEngine, WalEntry, Operation, consume, seen, set, log_operation, replay_wal,
  stored_value,
}
use toll_mesh_store.Persistence.Log.{replay-log_operation}
use toll_mesh_store.Store.{MeshStore, new_mesh_store, apply_wal_entry, apply_wal}
use toll_mesh_store.Store.Recovery.{replayed}

apply_wal-append :
    (ms : MeshStore) (xs : List WalEntry) (e : WalEntry)
    → apply_wal ms (xs ++ e ∷ []) ≡ apply_wal_entry (apply_wal ms xs) e
unfolding apply_wal
apply_wal-append ms [] e = refl
apply_wal-append ms (x ∷ xs) e = apply_wal-append (apply_wal_entry ms x) xs e

-- Replay does not look at the engine that the store holds.
abbrev pub with_engine : PersistenceEngine → MeshStore → MeshStore
with_engine pe ms = record ms { persistence = pe }

apply_wal_entry-with_engine :
    (pe : PersistenceEngine) (ms : MeshStore) (op : Operation) (e : WalEntry)
    → e.operation ≡ op
    → apply_wal_entry (with_engine pe ms) e ≡ with_engine pe (apply_wal_entry ms e)
unfolding apply_wal_entry
apply_wal_entry-with_engine pe ms consume e h = ground (arith, h)
apply_wal_entry-with_engine pe ms seen e h = ground (arith, h)
apply_wal_entry-with_engine pe ms set e h = ground (arith, h)

apply_wal-with_engine :
    (pe : PersistenceEngine) (ms : MeshStore) (es : List WalEntry)
    → apply_wal (with_engine pe ms) es ≡ with_engine pe (apply_wal ms es)
unfolding apply_wal
apply_wal-with_engine pe ms [] = refl
apply_wal-with_engine pe ms (e ∷ es) =
    rw (apply_wal_entry-with_engine pe ms e.operation e refl)
      (apply_wal-with_engine pe (apply_wal_entry ms e) es)

-- The entry as the log keeps it.
abbrev pub logged_entry : ℕ → Operation → String → Option Bytes → String → ℕ → String → ℕ → WalEntry
logged_entry now op key v ns expires_at node version = record {
  timestamp = now;
  operation = op;
  key = key;
  value = stored_value v;
  namespace = ns;
  expires_at = expires_at;
  node = node;
  version = if version == 0 then now else version;
}

pub replayed-log :
    (name : String) (pe : PersistenceEngine) (now : ℕ) (op : Operation) (key : String)
    (v : Option Bytes) (ns : String) (expires_at : ℕ) (node : String) (version : ℕ)
    → 0 < now
    → let pe' = log_operation pe now op key v ns expires_at node version in
      replayed name pe'
      ≡ with_engine pe' (
          apply_wal_entry (replayed name pe) (logged_entry now op key v ns expires_at node version))
unfolding replayed new_mesh_store
replayed-log name pe now op key v ns expires_at node version h =
    let pe' = log_operation pe now op key v ns expires_at node version in
    rw (replay-log_operation pe 0 now op key v ns expires_at node version h) (
      rw (apply_wal-append (new_mesh_store name pe') (replay_wal pe 0) _) (
        rw (apply_wal-with_engine pe' (new_mesh_store name pe) (replay_wal pe 0))
          (apply_wal_entry-with_engine pe' (replayed name pe) op _ refl)))
