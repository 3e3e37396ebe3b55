-- ===== src/Store/State.antt =====
-- Reading a cell of a map of maps after a write, and the cache after its cleanup.
use toll_mesh_store.Common.{
  ◌+◌, or_empty, lookup_in-insert_in, UniqueIn, UniqueIn-keys, ℕ, ◌≤◌, ◌≡◌, refl, String, Map,
  lookup, erase, Unique, lookup-erase, eq_iff, str_eq, Option, none, some, Bool, false, ◌&&◌, List,
  [], ◌∷◌, arith, ltb, if◌then◌else◌,
}
use toll_mesh_store.Store.{
  CacheEntry, Cache, MeshStore, is_expired, get, set_key, drop_expired, drop_expired_all,
  background_cleanup,
}

-- A `Get` reads what the last `Set` of its cell wrote until the time to live has passed (and for
-- good where there is none); a `Set` of another cell changes nothing that it reads.
pub get-set_key :
    (ms : MeshStore) (ns key ns' key' : String) (value : List ℕ)
    (ttl ts now logged latency later latency' : ℕ)
    → (get (set_key ms ns key value ttl ts now logged latency) ns' key' later latency').1 ≡ (
        if str_eq ns ns' && str_eq key key'
        then (if ltb 0 ttl && ltb (now + ttl) later then none else some value)
        else (get ms ns' key' later latency').1)
unfolding get set_key
get-set_key ms ns key ns' key' value ttl ts now logged latency later latency' =
    let expires_at = if ltb 0 ttl then some (now + ttl) else none in
    let entry : CacheEntry = record {
      value = value;
      expires_at = expires_at;
      timestamp = ts;
      node = ms.node_name;
    } in
    ground (arith, lookup_in-insert_in ns key ns' key' entry ms.cache)

-- Whether a cleanup at `now` drops the entry.
abbrev gone : ℕ → Option CacheEntry → Bool
gone now none = false
gone now (some e) = is_expired e.expires_at now

lookup-drop_expired :
    (now : ℕ) (m kept : Map CacheEntry) (key : String)
    → Unique m
    → lookup key (drop_expired now m kept)
      ≡ (if gone now (lookup key m) then none else lookup key kept)
unfolding drop_expired lookup
lookup-drop_expired now [] kept key u = refl
lookup-drop_expired now ((j, e) ∷ rest) kept key u =
    let dropped = is_expired e.expires_at now in
    ground (
      arith,
      lookup-drop_expired now rest (if dropped then erase j kept else kept) key u.1,
      lookup-erase j key kept,
      eq_iff j key,
    )

abbrev cleaned : ℕ → Option (Map CacheEntry) → Option (Map CacheEntry)
cleaned now none = none
cleaned now (some kv) = some (drop_expired now kv kv)

lookup-drop_expired_all :
    (now : ℕ) (c : Cache) (ns : String)
    → lookup ns (drop_expired_all now c) ≡ cleaned now (lookup ns c)
unfolding drop_expired_all lookup
lookup-drop_expired_all now [] ns = refl
lookup-drop_expired_all now ((n, kv) ∷ rest) ns =
    ground (arith, lookup-drop_expired_all now rest ns)

drop_expired-or_empty :
    (now : ℕ) (o : Option (Map CacheEntry)) (key : String)
    → Unique (or_empty o)
    → lookup key (or_empty (cleaned now o))
      ≡ (if gone now (lookup key (or_empty o)) then none else lookup key (or_empty o))
unfolding lookup
drop_expired-or_empty now none key u = refl
drop_expired-or_empty now (some kv) key u = lookup-drop_expired now kv kv key u

-- A cleanup at `now` answers no later `Get` otherwise than without it.
pub get-background_cleanup :
    (ms : MeshStore) (now later latency : ℕ) (ns key : String)
    → UniqueIn ms.cache
    → now ≤ later
    → (get (background_cleanup ms now) ns key later latency).1 ≡ (get ms ns key later latency).1
unfolding get background_cleanup is_expired
get-background_cleanup ms now later latency ns key v h = ground (
  arith,
  lookup-drop_expired_all now ms.cache ns,
  drop_expired-or_empty now (lookup ns ms.cache) key (UniqueIn-keys ns ms.cache v),
)
