-- ===== src/Store/Gossip/Cells.antt =====
-- What a merge does to one cell of the cache.
use toll_mesh_store.Common.{
  ℕ, ◌≡◌, refl, String, Map, Bytes, lookup, or_empty, lookup_in, lookup-insert, lookup_in-insert_in,
  Unique, UniqueIn, eq_iff, str_eq, Option, none, some, ◌&&◌, [], ◌∷◌, arith, if◌then◌else◌,
}
use toll_mesh_store.Store.{CacheEntry, MeshStore}
use toll_mesh_store.Store.Gossip.Order.{cache_entry_less-eq, newer}
use toll_mesh_store.Store.Gossip.{
  MeshStoreState, peer_entry, keeps_local, merge_entry, merge_namespace, ensure_namespace,
  merge_cache, merge_state,
}

-- The peer's cell as an entry.
abbrev pub peer_cell : MeshStoreState → String → String → Option Bytes → Option CacheEntry
peer_cell peer ns key none = none
peer_cell peer ns key (some v) = some (peer_entry peer ns key v)

keeps_local-newer :
    (local : Option CacheEntry) (entry : CacheEntry)
    → newer local (some entry) ≡ (if keeps_local local entry then local else some entry)
unfolding newer keeps_local
keeps_local-newer none entry = refl
keeps_local-newer (some l) entry =
    ground (arith, cache_entry_less-eq l.timestamp l.node entry.timestamp entry.node)

merge_entry-cell :
    (peer : MeshStoreState) (now : ℕ) (ns key ns' key' : String) (v : Bytes) (ms : MeshStore)
    → lookup_in ns' key' (merge_entry peer now ns key v ms).cache ≡ (
        if str_eq ns ns' && str_eq key key'
        then newer (lookup_in ns key ms.cache) (some (peer_entry peer ns key v))
        else lookup_in ns' key' ms.cache)
unfolding merge_entry
merge_entry-cell peer now ns key ns' key' v ms =
    let entry = peer_entry peer ns key v in
    ground (
      arith,
      keeps_local-newer (lookup_in ns key ms.cache) entry,
      lookup_in-insert_in ns key ns' key' entry ms.cache,
      eq_iff ns ns',
      eq_iff key key',
    )

merge_namespace-cell :
    (peer : MeshStoreState) (now : ℕ) (ns ns' key' : String) (kv : Map Bytes) (ms : MeshStore)
    → Unique kv
    → lookup_in ns' key' (merge_namespace peer now ns kv ms).cache ≡ (
        if str_eq ns ns'
        then newer (lookup_in ns' key' ms.cache) (peer_cell peer ns' key' (lookup key' kv))
        else lookup_in ns' key' ms.cache)
unfolding merge_namespace lookup newer
merge_namespace-cell peer now ns ns' key' [] ms u = ground arith
merge_namespace-cell peer now ns ns' key' ((key, v) ∷ rest) ms u = ground (
  arith,
  merge_namespace-cell peer now ns ns' key' rest (merge_entry peer now ns key v ms) u.1,
  merge_entry-cell peer now ns key ns' key' v ms,
  eq_iff ns ns',
  eq_iff key key',
)

ensure_namespace-cell :
    (ns ns' key' : String) (ms : MeshStore)
    → lookup_in ns' key' (ensure_namespace ns ms).cache ≡ lookup_in ns' key' ms.cache
unfolding ensure_namespace lookup_in
ensure_namespace-cell ns ns' key' ms =
    ground (arith, lookup-insert ns ns' (or_empty (lookup ns ms.cache)) ms.cache, eq_iff ns ns')

merge_cache-cell :
    (peer : MeshStoreState) (now : ℕ) (ns' key' : String) (m : Map (Map Bytes)) (ms : MeshStore)
    → UniqueIn m
    → lookup_in ns' key' (merge_cache peer now m ms).cache
      ≡ newer (lookup_in ns' key' ms.cache) (peer_cell peer ns' key' (lookup_in ns' key' m))
unfolding merge_cache lookup_in lookup newer
merge_cache-cell peer now ns' key' [] ms u = ground arith
merge_cache-cell peer now ns' key' ((ns, kv) ∷ rest) ms u =
    let made = ensure_namespace ns ms in
    ground (
      arith,
      merge_cache-cell peer now ns' key' rest (merge_namespace peer now ns kv made) u.2,
      merge_namespace-cell peer now ns ns' key' kv made u.1,
      ensure_namespace-cell ns ns' key' ms,
      eq_iff ns ns',
    )

-- After a merge each cell of the cache holds what it held, unless the peer's cell is strictly newer
-- (or is the only one): then it holds the peer's. The peer's state names each namespace and key
-- once.
pub merge_state-cell :
    (ms : MeshStore) (peer : MeshStoreState) (now : ℕ) (ns key : String)
    → UniqueIn peer.cache
    → lookup_in ns key (merge_state ms peer now).cache
      ≡ newer (lookup_in ns key ms.cache) (peer_cell peer ns key (lookup_in ns key peer.cache))
unfolding merge_state
merge_state-cell ms peer now ns key u = merge_cache-cell peer now ns key peer.cache _ u
