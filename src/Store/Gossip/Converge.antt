-- ===== src/Store/Gossip/Converge.antt =====
-- Gossip converges: the order of the merges does not matter, a merge twice is a merge once, and two
-- nodes that merge one another's state hold the same cells.
use toll_mesh_store.Common.{
  ℕ, ◌≡◌, refl, String, Map, Bytes, lookup, or_empty, lookup_in, Unique, UniqueIn-keys, UniqueIn,
  Option, none, some, [], ◌∷◌, arith, milli, version_ltb_asym, version_ltb_total, eq_iff,
}
use mathlib.Core.Option
use toll_mesh_store.Store.{CacheEntry, Cache, MeshStore, expiry_of}
use toll_mesh_store.Store.Gossip.Order.{
  version_of, newer, newer_idem, newer_assoc, newer_comm, SameWrite,
}
use toll_mesh_store.Store.Gossip.Cells.{peer_cell, merge_state-cell}
use toll_mesh_store.Store.Gossip.{
  MeshStoreState, peer_entry, merge_state, state_of, copy_values, copy_ttls, copy_timestamps,
  copy_nodes, copy_cache, or_no_ttl,
}

-- The cell that a peer's state has.
abbrev pub cell_of : MeshStoreState → String → String → Option CacheEntry
cell_of peer ns key = peer_cell peer ns key (lookup_in ns key peer.cache)

-- A node that merges two peers' states in either order, or one of them twice, has the same cells,
-- where the peers' entries of one version are one write.
pub merge_state_any_order :
    (ms : MeshStore) (p q : MeshStoreState) (t u v : ℕ) (ns key : String)
    → UniqueIn p.cache
    → UniqueIn q.cache
    → SameWrite (cell_of p ns key) (cell_of q ns key)
    → (lookup_in ns key (merge_state (merge_state ms p t) q u).cache
        ≡ lookup_in ns key (merge_state (merge_state ms q u) p t).cache)
      × (lookup_in ns key (merge_state (merge_state ms p t) p v).cache
          ≡ lookup_in ns key (merge_state ms p t).cache)
merge_state_any_order ms p q t u v ns key up uq s =
    let a = lookup_in ns key ms.cache in
    let b = cell_of p ns key in
    let c = cell_of q ns key in
    (
      cc (
        merge_state-cell (merge_state ms p t) q u ns key uq,
        merge_state-cell ms p t ns key up,
        merge_state-cell (merge_state ms q u) p t ns key up,
        merge_state-cell ms q u ns key uq,
        newer_assoc a b c,
        newer_assoc a c b,
        newer_comm b c s,
      ),
      cc (
        merge_state-cell (merge_state ms p t) p v ns key up,
        merge_state-cell ms p t ns key up,
        newer_assoc a b b,
        newer_idem b,
      ),
    )

lookup-copy_values :
    (kv : Map CacheEntry) (k : String)
    → lookup k (copy_values kv) ≡ Option.map (λ (e : CacheEntry). e.value) (lookup k kv)
unfolding copy_values lookup
lookup-copy_values [] k = refl
lookup-copy_values ((j, e) ∷ rest) k = ground (arith, lookup-copy_values rest k)

lookup-copy_timestamps :
    (kv : Map CacheEntry) (k : String)
    → lookup k (copy_timestamps kv) ≡ Option.map (λ (e : CacheEntry). e.timestamp) (lookup k kv)
unfolding copy_timestamps lookup
lookup-copy_timestamps [] k = refl
lookup-copy_timestamps ((j, e) ∷ rest) k = ground (arith, lookup-copy_timestamps rest k)

lookup-copy_nodes :
    (kv : Map CacheEntry) (k : String)
    → lookup k (copy_nodes kv) ≡ Option.map (λ (e : CacheEntry). e.node) (lookup k kv)
unfolding copy_nodes lookup
lookup-copy_nodes [] k = refl
lookup-copy_nodes ((j, e) ∷ rest) k = ground (arith, lookup-copy_nodes rest k)

abbrev ttl_of : Option CacheEntry → Option ℕ
ttl_of none = none
ttl_of (some e) = Option.map milli e.expires_at

lookup-copy_ttls :
    (kv : Map CacheEntry) (k : String) → Unique kv → lookup k (copy_ttls kv) ≡ ttl_of (lookup k kv)
unfolding copy_ttls lookup
lookup-copy_ttls [] k u = refl
lookup-copy_ttls ((j, e) ∷ rest) k u = ground (arith, lookup-copy_ttls rest k u.1, eq_iff j k)

lookup-copy_cache {ℓ} :
    {V : Type ℓ} (f : Map CacheEntry → V) (c : Cache) (ns : String)
    → lookup ns (copy_cache f c) ≡ Option.map f (lookup ns c)
unfolding copy_cache lookup
lookup-copy_cache f [] ns = refl
lookup-copy_cache f ((n, kv) ∷ rest) ns = ground (arith, lookup-copy_cache f rest ns)

copy_values-Unique : (kv : Map CacheEntry) → Unique kv → Unique (copy_values kv)
unfolding copy_values
copy_values-Unique [] u = tt
copy_values-Unique ((k, e) ∷ rest) u =
    ground (arith, lookup-copy_values rest k, copy_values-Unique rest u.1)

pub copy_cache-UniqueIn : (c : Cache) → UniqueIn c → UniqueIn (copy_cache copy_values c)
unfolding copy_cache
copy_cache-UniqueIn [] u = tt
copy_cache-UniqueIn ((ns, kv) ∷ rest) u = ground (
  arith,
  lookup-copy_cache copy_values rest ns,
  copy_values-Unique kv u.1,
  copy_cache-UniqueIn rest u.2,
)

-- An entry as a peer reads it: the expiry has lost its part below a millisecond.
abbrev pub on_wire : Option CacheEntry → Option CacheEntry
on_wire none = none
on_wire (some e) =
    some (record e { expires_at = expiry_of (or_no_ttl (Option.map milli e.expires_at)) })

wire_cell :
    (ns key : String) (c : Cache) (kv : Option (Map CacheEntry)) (ms : MeshStore)
    → UniqueIn c
    → ms.cache ≡ c
    → lookup ns c ≡ kv
    → Unique (or_empty kv)
    → cell_of (state_of ms) ns key ≡ on_wire (lookup key (or_empty kv))
unfolding state_of lookup_in peer_entry lookup
wire_cell ns key c none ms u e h v = ground (
  arith,
  lookup-copy_cache copy_values c ns,
  lookup-copy_cache copy_ttls c ns,
  lookup-copy_cache copy_timestamps c ns,
  lookup-copy_cache copy_nodes c ns,
)
wire_cell ns key c (some kv) ms u e h v = ground (
  arith,
  lookup-copy_cache copy_values c ns,
  lookup-copy_cache copy_ttls c ns,
  lookup-copy_cache copy_timestamps c ns,
  lookup-copy_cache copy_nodes c ns,
  lookup-copy_values kv key,
  lookup-copy_ttls kv key v,
  lookup-copy_timestamps kv key,
  lookup-copy_nodes kv key,
)

pub cell_of-state_of :
    (ms : MeshStore) (ns key : String)
    → UniqueIn ms.cache
    → cell_of (state_of ms) ns key ≡ on_wire (lookup_in ns key ms.cache)
unfolding lookup_in
cell_of-state_of ms ns key u =
    wire_cell ns key ms.cache (lookup ns ms.cache) ms u refl refl (UniqueIn-keys ns ms.cache u)

-- What two nodes agree on in a cell: the value and its version.
abbrev pub written : Option CacheEntry → Option (Bytes × ℕ × String)
written none = none
written (some e) = some (e.value, e.timestamp, e.node)

-- Entries of one version hold one value.
abbrev pub SameValue : Option CacheEntry → Option CacheEntry → Type 0
SameValue none b = Unit
SameValue (some a) none = Unit
SameValue (some a) (some b) = version_of a ≡ version_of b → a.value ≡ b.value

written-newer :
    (a b : Option CacheEntry)
    → SameValue a b
    → written (newer a (on_wire b)) ≡ written (newer b (on_wire a))
unfolding newer
written-newer none none s = refl
written-newer none (some b) s = refl
written-newer (some a) none s = refl
written-newer (some a) (some b) s = ground (
  arith,
  version_ltb_asym (version_of a) (version_of b),
  version_ltb_total (version_of a) (version_of b),
  s,
)

wire_Unique : (ms : MeshStore) → UniqueIn ms.cache → UniqueIn (state_of ms).cache
unfolding state_of
wire_Unique ms u = copy_cache-UniqueIn ms.cache u

-- Two nodes that have merged one another's state hold the same value of the same version in every
-- cell, where a version stands for one value.
pub merge_state_converges :
    (a b : MeshStore) (t u : ℕ) (ns key : String)
    → UniqueIn a.cache
    → UniqueIn b.cache
    → SameValue (lookup_in ns key a.cache) (lookup_in ns key b.cache)
    → written (lookup_in ns key (merge_state a (state_of b) t).cache)
      ≡ written (lookup_in ns key (merge_state b (state_of a) u).cache)
merge_state_converges a b t u ns key ua ub s =
    let la = lookup_in ns key a.cache in
    let lb = lookup_in ns key b.cache in
    let ca = wire_Unique a ua in
    let cb = wire_Unique b ub in
    cc (
      merge_state-cell a (state_of b) t ns key cb,
      merge_state-cell b (state_of a) u ns key ca,
      cell_of-state_of a ns key ua,
      cell_of-state_of b ns key ub,
      written-newer la lb s,
    )
