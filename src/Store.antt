-- ===== src/Store.antt =====
-- store/mesh_store.go: the rate limiter, the replay protection and the cache of one node, with the
-- write-ahead log that makes them durable and the gossip that replicates them. Every method holds
-- the store's lock, so it is one step; the readings of the clock that it takes are arguments.
pub mod State
pub mod Limiter
pub mod Recovery
pub mod Gossip
pub mod Snapshots
pub mod Tests
use toll_mesh_store.Common.{
  ℕ, ◌+◌, ◌-◌, String, Map, Bytes, lookup, insert, erase, lookup_in, insert_in, Option, none, some,
  Bool, true, false, not, List, ◌∷◌, ltb, str_ltb, ◌==◌, milli, from_milli, is_some, if◌then◌else◌,
  [],
}
use toll_mesh_store.Core.Crdt.{GCounter, GSet}
use toll_mesh_store.Core.Crdt
use toll_mesh_store.Metrics.{Metrics}
use toll_mesh_store.Metrics
use toll_mesh_store.Persistence.{PersistenceEngine, WalEntry, consume, seen, set, log_operation}

-- `expires_at` is a reading of the clock, `none` for the zero time.
pub record CacheEntry : Type 0 where
  pub value : Bytes
  pub expires_at : Option ℕ
  pub timestamp : ℕ
  pub node : String

abbrev pub Cache : Type 0
Cache = Map (Map CacheEntry)

pub record MeshStore : Type 0 where
  pub node_name : String
  pub rate_limiters : Map GCounter
  pub replay_protection : GSet
  pub cache : Cache
  pub persistence : PersistenceEngine
  pub metrics : Metrics
  pub cluster_metrics : Map (Map ℕ)

unfoldable pub new_mesh_store : String → PersistenceEngine → MeshStore
new_mesh_store node_name pe = record {
  node_name = node_name;
  rate_limiters = [];
  replay_protection = Crdt.new_g_set;
  cache = [];
  persistence = pe;
  metrics = Metrics.new_metrics;
  cluster_metrics = [];
}

-- The counter under a key, made where it is missing.
abbrev pub or_new : Option GCounter → GCounter
or_new none = Crdt.new_g_counter
or_new (some counter) = counter

abbrev pub counter_of : Map GCounter → String → GCounter
counter_of limiters key = or_new (lookup key limiters)

pub record ConsumeResult : Type 0 where
  pub allowed : Bool
  pub remaining : ℕ
  pub reset_at : ℕ

-- `logged` is the reading of the log, `now` the one for the reset, `latency` what the deferred call
-- records. The counter stays in the map also where the call is refused.
unfoldable pub consume_key : MeshStore → String → ℕ → ℕ → ℕ → ℕ → ℕ → MeshStore × ConsumeResult
consume_key ms key limit window logged now latency =
    let counter = counter_of ms.rate_limiters key in
    let current = Crdt.value counter in
    let allowed = ltb current limit in
    let counter' = if allowed then Crdt.increment counter ms.node_name else counter in
    let wal =
      if allowed
      then log_operation ms.persistence logged consume key none "" 0 "" 0
      else ms.persistence in
    (
      record ms {
        rate_limiters = insert key counter' ms.rate_limiters;
        persistence = wal;
        metrics = Metrics.record_consume ms.metrics allowed latency;
      },
      record {
        allowed = allowed;
        remaining = if allowed then limit - current - 1 else 0;
        reset_at = milli (now + window);
      },
    )

unfoldable pub seen_key : MeshStore → String → ℕ → ℕ → MeshStore × Bool
seen_key ms key logged latency =
    let replay = Crdt.contains ms.replay_protection key in
    let counted = record ms { metrics = Metrics.record_seen ms.metrics replay latency } in
    if replay then (counted, true) else (
      record counted {
        replay_protection = Crdt.add ms.replay_protection key;
        persistence = log_operation ms.persistence logged seen key none "" 0 "" 0;
      },
      false,
    )

-- `!entry.ExpiresAt.IsZero() && now.After(entry.ExpiresAt)`.
unfoldable pub is_expired : Option ℕ → ℕ → Bool
is_expired none now = false
is_expired (some expires_at) now = ltb expires_at now

unfoldable pub read_entry : Option CacheEntry → ℕ → Option Bytes
unfolding is_expired
read_entry none now = none
read_entry (some entry) now = if is_expired entry.expires_at now then none else some entry.value

unfoldable pub get : MeshStore → String → String → ℕ → ℕ → MeshStore × Option Bytes
unfolding lookup_in read_entry
get ms ns key now latency =
    let found = read_entry (lookup_in ns key ms.cache) now in
    (record ms { metrics = Metrics.record_get ms.metrics (is_some found) latency }, found)

-- `ts` is the reading for the version, `now` the one for the expiry, `logged` the log's. A time to
-- live of 0 means none.
unfoldable pub set_key : MeshStore → String → String → Bytes → ℕ → ℕ → ℕ → ℕ → ℕ → MeshStore
unfolding insert_in
set_key ms ns key value ttl ts now logged latency =
    let expires_at = if ltb 0 ttl then some (now + ttl) else none in
    let expires_ms = if ltb 0 ttl then milli (now + ttl) else 0 in
    let entry : CacheEntry = record {
      value = value;
      expires_at = expires_at;
      timestamp = ts;
      node = ms.node_name;
    } in
    record ms {
      cache = insert_in ns key entry ms.cache;
      persistence =
          log_operation ms.persistence logged set key (some value) ns expires_ms ms.node_name 0;
      metrics = Metrics.record_set ms.metrics latency;
    }

abbrev pub or_no_bytes : Option Bytes → Bytes
or_no_bytes none = []
or_no_bytes (some bytes) = bytes

-- `if entry.ExpiresAt > 0 { … time.UnixMilli(entry.ExpiresAt) }`.
abbrev pub expiry_of : ℕ → Option ℕ
expiry_of ms = if ltb 0 ms then some (from_milli ms) else none

unfoldable pub apply_wal_entry : MeshStore → WalEntry → MeshStore
unfolding insert_in
apply_wal_entry ms e = elim e.operation [
  | consume ↦ record ms {
    rate_limiters =
        insert e.key (Crdt.increment (counter_of ms.rate_limiters e.key) ms.node_name)
          ms.rate_limiters;
  }
  | seen ↦ record ms { replay_protection = Crdt.add ms.replay_protection e.key }
  | set ↦
      let entry : CacheEntry = record {
        value = or_no_bytes e.value;
        expires_at = expiry_of e.expires_at;
        timestamp = e.version;
        node = e.node;
      } in
      record ms { cache = insert_in e.namespace e.key entry ms.cache }
]

unfoldable pub apply_wal : MeshStore → List WalEntry → MeshStore
unfolding apply_wal_entry
apply_wal ms [] = ms
apply_wal ms (e ∷ rest) = apply_wal (apply_wal_entry ms e) rest

unfoldable pub cache_entry_less : ℕ → String → ℕ → String → Bool
cache_entry_less ts_a node_a ts_b node_b =
    if not (ts_a == ts_b) then ltb ts_a ts_b else str_ltb node_a node_b

-- One namespace of the loop of `backgroundCleanup`.
unfoldable pub drop_expired : ℕ → Map CacheEntry → Map CacheEntry → Map CacheEntry
unfolding is_expired
drop_expired now [] kept = kept
drop_expired now ((key, entry) ∷ rest) kept =
    drop_expired now rest (if is_expired entry.expires_at now then erase key kept else kept)

unfoldable pub drop_expired_all : ℕ → Cache → Cache
unfolding drop_expired
drop_expired_all now [] = []
drop_expired_all now ((ns, kv) ∷ rest) = (ns, drop_expired now kv kv) ∷ drop_expired_all now rest

-- One round of `backgroundCleanup`.
unfoldable pub background_cleanup : MeshStore → ℕ → MeshStore
unfolding drop_expired_all
background_cleanup ms now = record ms { cache = drop_expired_all now ms.cache }
