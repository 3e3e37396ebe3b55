-- ===== src/Store/Recovery.antt =====
-- What a restart finds: the store that the write-ahead log gives back, beside the one that was lost
-- (recoverFromDisk and applyWALEntryLocked of store/mesh_store.go).
pub mod Replay
pub mod Calls
pub mod Steps
pub mod Restart
use toll_mesh_store.Common.{
  ℕ, ◌≤◌, ◌<◌, ◌≡◌, String, Bytes, to_valid_utf8, lookup_in, lookup_in, Option, none, some, List,
  ◌∷◌, milli, [],
}
use toll_mesh_store.Core.Crdt.{value}
use toll_mesh_store.Core.Crdt
use toll_mesh_store.Persistence.{PersistenceEngine, replay_wal}
use toll_mesh_store.Store.{
  CacheEntry, MeshStore, new_mesh_store, counter_of, consume_key, seen_key, set_key, expiry_of,
  apply_wal,
}

-- A node that starts on a log with no snapshot.
unfoldable pub replayed : String → PersistenceEngine → MeshStore
replayed name pe = apply_wal (new_mesh_store name pe) (replay_wal pe 0)

abbrev pub in_millis : Option ℕ → Option ℕ
in_millis none = none
in_millis (some t) = expiry_of (milli t)

-- The entry that a cell comes back as: its bytes as JSON keeps them, and its expiry in whole
-- milliseconds. The version may be later, never earlier.
abbrev pub SameCell : Option CacheEntry → Option CacheEntry → Type 0
SameCell none none = Unit
SameCell none (some r) = ⊥
SameCell (some e) none = ⊥
SameCell (some e) (some r) =
    (r.value ≡ to_valid_utf8 e.value)
    × (r.expires_at ≡ in_millis e.expires_at)
    × (r.node ≡ e.node)
    × (e.timestamp ≤ r.timestamp)

-- The lost store and what its log gives back.
pub record Recovered (live back : MeshStore) : Type 0 where
  pub node_name : back.node_name ≡ live.node_name
  pub counts :
      (key : String)
      → value (counter_of back.rate_limiters key) ≡ value (counter_of live.rate_limiters key)
  pub seen_keys :
      (key : String)
      → Crdt.contains back.replay_protection key ≡ Crdt.contains live.replay_protection key
  pub cells :
      (ns key : String) → SameCell (lookup_in ns key live.cache) (lookup_in ns key back.cache)

pub data LocalOp : Type 0 where
  consumes : (key : String) (limit window logged now latency : ℕ) → LocalOp
  sees : (key : String) (logged latency : ℕ) → LocalOp
  sets : (ns key : String) (v : Bytes) (ttl ts now logged latency : ℕ) → LocalOp

unfoldable pub step : MeshStore → LocalOp → MeshStore
step ms (consumes key limit window logged now latency) =
    (consume_key ms key limit window logged now latency).0
step ms (sees key logged latency) = (seen_key ms key logged latency).0
step ms (sets ns key v ttl ts now logged latency) = set_key ms ns key v ttl ts now logged latency

-- The clock reads more than 0, and a log entry is stamped no earlier than its write.
abbrev pub Clocked : LocalOp → Type 0
Clocked (consumes key limit window logged now latency) = 0 < logged
Clocked (sees key logged latency) = 0 < logged
Clocked (sets ns key v ttl ts now logged latency) = (0 < logged) × (ts ≤ logged)

abbrev pub back_of : MeshStore → MeshStore
back_of ms = replayed ms.node_name ms.persistence

abbrev pub IsRecovered : MeshStore → Type 0
IsRecovered ms = Recovered ms (back_of ms)

unfoldable pub run : MeshStore → List LocalOp → MeshStore
run ms [] = ms
run ms (op ∷ ops) = run (step ms op) ops

abbrev pub AllClocked : List LocalOp → Type 0
AllClocked [] = Unit
AllClocked (op ∷ ops) = Clocked op × AllClocked ops
