-- ===== src/Store/Gossip.antt =====
-- store/mesh_store.go: `GetState` and `MergeState` for the rate limiters, the replay protection, the
-- cache and the cluster metrics. The state that travels is the part of core.MeshStoreState that
-- these four use; a map that is nil on the wire is empty here, and both read alike.
pub mod Order
pub mod Cells
pub mod Converge
use toll_mesh_store.Common.{
  ℕ, String, Map, Bytes, lookup, insert, or_empty, lookup_in, insert_in, Option, none, some, Bool,
  true, false, List, ◌∷◌, milli, if◌then◌else◌, [],
}
use toll_mesh_store.Core.Crdt.{or_zero, merge_counts, merge_wins}
use toll_mesh_store.Core.Crdt
use toll_mesh_store.Metrics
use toll_mesh_store.Persistence.{set, log_operation}
use toll_mesh_store.Store.{CacheEntry, Cache, MeshStore, counter_of, expiry_of, cache_entry_less}

-- A counter snapshot before and after JSON: numbers decode as floats, and what is no number is
-- passed over.
pub data Json : Type 0 where
  number : ℕ → Json
  other : Json

pub data RawCounts : Type 0 where
  ints : Map ℕ → RawCounts
  decoded : Map Json → RawCounts
  unknown : RawCounts

pub record MeshStoreState : Type 0 where
  pub rate_limiters : Map RawCounts
  pub replay_protection : Map Bool
  pub cache : Map (Map Bytes)
  pub cache_ttl : Map (Map ℕ)
  pub cache_timestamp : Map (Map ℕ)
  pub cache_node : Map (Map String)
  pub metrics : Map (Map ℕ)

unfoldable pub copy_numbers : Map ℕ → Map Json → Map ℕ
copy_numbers out [] = out
copy_numbers out ((k, number n) ∷ rest) = copy_numbers (insert k n out) rest
copy_numbers out ((k, other) ∷ rest) = copy_numbers out rest

unfoldable pub decode_g_counter_snapshot : RawCounts → Map ℕ
unfolding copy_numbers
decode_g_counter_snapshot (ints counts) = Crdt.copy_into [] counts
decode_g_counter_snapshot (decoded raw) = copy_numbers [] raw
decode_g_counter_snapshot unknown = []

abbrev pub merge_limiter : Map Crdt.GCounter → String → Map ℕ → Map Crdt.GCounter
merge_limiter limiters key [] = limiters
merge_limiter limiters key (c ∷ counts) =
    insert key (Crdt.merge (counter_of limiters key) (Crdt.restore_g_counter (c ∷ counts))) limiters

unfoldable pub merge_limiters : Map Crdt.GCounter → Map RawCounts → Map Crdt.GCounter
unfolding decode_g_counter_snapshot
merge_limiters limiters [] = limiters
merge_limiters limiters ((key, raw) ∷ rest) =
    merge_limiters (merge_limiter limiters key (decode_g_counter_snapshot raw)) rest

-- The items that the peer marks as seen.
unfoldable pub seen_items : Map Bool → List String
seen_items [] = []
seen_items ((item, true) ∷ rest) = item ∷ seen_items rest
seen_items ((item, false) ∷ rest) = seen_items rest

-- The peer's cell as an entry; a missing timestamp or node reads as the zero value.
abbrev pub or_no_name : Option String → String
or_no_name none = ""
or_no_name (some n) = n

abbrev pub or_no_ttl : Option ℕ → ℕ
or_no_ttl none = 0
or_no_ttl (some ms) = ms

unfoldable pub peer_entry : MeshStoreState → String → String → Bytes → CacheEntry
unfolding lookup_in
peer_entry peer ns key v = record {
  value = v;
  expires_at = expiry_of (or_no_ttl (lookup_in ns key peer.cache_ttl));
  timestamp = or_zero (lookup_in ns key peer.cache_timestamp);
  node = or_no_name (lookup_in ns key peer.cache_node);
}

-- `exists && !cacheEntryLess(local…, peer…)`: the local version stays.
unfoldable pub keeps_local : Option CacheEntry → CacheEntry → Bool
unfolding cache_entry_less
keeps_local none peer = false
keeps_local (some local) peer =
    if cache_entry_less local.timestamp local.node peer.timestamp peer.node then false else true

unfoldable pub merge_entry : MeshStoreState → ℕ → String → String → Bytes → MeshStore → MeshStore
unfolding peer_entry keeps_local insert_in lookup_in
merge_entry peer now ns key v ms =
    let entry = peer_entry peer ns key v in
    if keeps_local (lookup_in ns key ms.cache) entry then ms else record ms {
      cache = insert_in ns key entry ms.cache;
      persistence =
          log_operation ms.persistence now set key (some v) ns
            (or_no_ttl (lookup_in ns key peer.cache_ttl)) entry.node entry.timestamp;
    }

unfoldable pub merge_namespace : MeshStoreState → ℕ → String → Map Bytes → MeshStore → MeshStore
unfolding merge_entry
merge_namespace peer now ns [] ms = ms
merge_namespace peer now ns ((key, v) ∷ rest) ms =
    merge_namespace peer now ns rest (merge_entry peer now ns key v ms)

-- `if _, exists := ms.cache[ns]; !exists { … }`.
unfoldable pub ensure_namespace : String → MeshStore → MeshStore
ensure_namespace ns ms = record ms { cache = insert ns (or_empty (lookup ns ms.cache)) ms.cache }

unfoldable pub merge_cache : MeshStoreState → ℕ → Map (Map Bytes) → MeshStore → MeshStore
unfolding merge_namespace ensure_namespace
merge_cache peer now [] ms = ms
merge_cache peer now ((ns, kv) ∷ rest) ms =
    merge_cache peer now rest (merge_namespace peer now ns kv (ensure_namespace ns ms))

-- The loop over `peer.Metrics`, whose inner loop is that of `GCounter.Merge`.
unfoldable pub merge_metrics : Map (Map ℕ) → Map (Map ℕ) → Map (Map ℕ)
merge_metrics cluster [] = cluster
merge_metrics cluster ((name, counts) ∷ rest) =
    merge_metrics (insert name (merge_counts (or_empty (lookup name cluster)) counts) cluster) rest

-- `now` is the reading of the log for the entries that are adopted.
unfoldable pub merge_state : MeshStore → MeshStoreState → ℕ → MeshStore
unfolding merge_limiters seen_items merge_cache merge_metrics
merge_state ms peer now =
    let limited = record ms {
      rate_limiters = merge_limiters ms.rate_limiters peer.rate_limiters;
    } in
    let replayed = record limited {
      replay_protection =
          Crdt.merge_set ms.replay_protection
            (Crdt.restore_g_set (seen_items peer.replay_protection));
    } in
    let cached = merge_cache peer now peer.cache replayed in
    record cached { cluster_metrics = merge_metrics ms.cluster_metrics peer.metrics }

unfoldable pub stamp_counts : String → Map (Map ℕ) → Map ℕ → Map (Map ℕ)
unfolding merge_wins
stamp_counts node cluster [] = cluster
stamp_counts node cluster ((name, value) ∷ rest) =
    let nodes = or_empty (lookup name cluster) in
    stamp_counts node
      (insert name (if merge_wins (lookup node nodes) value then insert node value nodes else nodes)
        cluster)
      rest

unfoldable pub stamp_local_metrics : MeshStore → MeshStore
unfolding stamp_counts
stamp_local_metrics ms = record ms {
  cluster_metrics = stamp_counts ms.node_name ms.cluster_metrics (Metrics.snapshot ms.metrics);
}

-- The four maps that `copyCacheLocked` writes, one key at a time.
unfoldable pub copy_values : Map CacheEntry → Map Bytes
copy_values [] = []
copy_values ((k, e) ∷ rest) = (k, e.value) ∷ copy_values rest

abbrev pub with_ttl : String → Option ℕ → Map ℕ → Map ℕ
with_ttl k none out = out
with_ttl k (some t) out = (k, milli t) ∷ out

unfoldable pub copy_ttls : Map CacheEntry → Map ℕ
copy_ttls [] = []
copy_ttls ((k, e) ∷ rest) = with_ttl k e.expires_at (copy_ttls rest)

unfoldable pub copy_timestamps : Map CacheEntry → Map ℕ
copy_timestamps [] = []
copy_timestamps ((k, e) ∷ rest) = (k, e.timestamp) ∷ copy_timestamps rest

unfoldable pub copy_nodes : Map CacheEntry → Map String
copy_nodes [] = []
copy_nodes ((k, e) ∷ rest) = (k, e.node) ∷ copy_nodes rest

unfoldable pub copy_cache {ℓ} : {V : Type ℓ} → (Map CacheEntry → V) → Cache → Map V
copy_cache f [] = []
copy_cache f ((ns, kv) ∷ rest) = (ns, f kv) ∷ copy_cache f rest

unfoldable pub raw_limiters : Map Crdt.GCounter → Map RawCounts
raw_limiters [] = []
raw_limiters ((key, counter) ∷ rest) = (key, ints (Crdt.snapshot counter)) ∷ raw_limiters rest

unfoldable pub bool_map : Map Bool → List String → Map Bool
bool_map out [] = out
bool_map out (item ∷ rest) = bool_map (insert item true out) rest

unfoldable pub copy_metrics : Map (Map ℕ) → Map (Map ℕ)
copy_metrics [] = []
copy_metrics ((name, counts) ∷ rest) = (name, Crdt.copy_into [] counts) ∷ copy_metrics rest

unfoldable pub state_of : MeshStore → MeshStoreState
unfolding copy_values copy_ttls copy_timestamps copy_nodes copy_cache raw_limiters bool_map
    copy_metrics
state_of ms = record {
  rate_limiters = raw_limiters ms.rate_limiters;
  replay_protection = bool_map [] (Crdt.snapshot_set ms.replay_protection);
  cache = copy_cache copy_values ms.cache;
  cache_ttl = copy_cache copy_ttls ms.cache;
  cache_timestamp = copy_cache copy_timestamps ms.cache;
  cache_node = copy_cache copy_nodes ms.cache;
  metrics = copy_metrics ms.cluster_metrics;
}

unfoldable pub get_state : MeshStore → MeshStore × MeshStoreState
unfolding stamp_local_metrics state_of
get_state ms = let ms' = stamp_local_metrics ms in (ms', state_of ms')
