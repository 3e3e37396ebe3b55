-- ===== src/Sharding.antt =====
-- The consistent hash ring (core/sharding.go).
--
-- Go's `int` is a natural number here: a negative number of virtual nodes, or of nodes asked for, is
-- not modelled. A ring with no virtual nodes has no hashes, so GetNodes, which would panic on the
-- division by their number, answers before it. The order in which `range` visits the map of nodes
-- has no effect, since the hashes are sorted.
pub mod Search
pub mod Owner
pub mod Changes
pub mod Nodes
pub mod Tests
use Prim.Native.Nat.{bit_xor}
use toll_mesh_store.Common.{
  ℕ, zero, suc, ◌+◌, ◌*◌, ◌/◌, ◌%◌, ◌^◌, Bool, true, false, not, ◌==◌, ltb, leb, if◌then◌else◌,
  String, str_eq, ◌⧺◌, decimal, Bytes, to_bytes, Option, none, some, List, [], ◌∷◌, ◌++◌, length,
  get_elem?, keep, sort, is_some,
}

pub record Node : Type 0 where
  pub id : String
  pub address : String
  pub port : ℕ

-- The map from hashes to nodes.
abbrev pub Nodes : Type 0
Nodes = List (ℕ × Node)

unfoldable pub node_at : ℕ → Nodes → Option Node
node_at hash [] = none
node_at hash ((at, node) ∷ rest) = if at == hash then some node else node_at hash rest

unfoldable pub put_node : ℕ → Node → Nodes → Nodes
put_node hash node [] = (hash, node) ∷ []
put_node hash node ((at, old) ∷ rest) =
    if at == hash then (hash, node) ∷ rest else (at, old) ∷ put_node hash node rest

pub record Ring : Type 0 where
  pub nodes : Nodes
  pub sorted_keys : List ℕ
  pub virtual_nodes : ℕ
  pub replication_factor : ℕ

unfoldable pub new_ring : ℕ → ℕ → Ring
new_ring virtual_nodes replication_factor = record {
  nodes = [];
  sorted_keys = [];
  virtual_nodes = virtual_nodes;
  replication_factor = replication_factor;
}

-- FNV-1a of 64 bits, from the hash of the bytes before.
unfoldable pub fnv_from : ℕ → Bytes → ℕ
fnv_from hash [] = hash
fnv_from hash (b ∷ rest) = fnv_from (bit_xor hash b * 1_099_511_628_211 % 2 ^ 64) rest

unfoldable pub hash_key : String → ℕ
unfolding fnv_from to_bytes
hash_key key = fnv_from 14_695_981_039_346_656_037 (to_bytes key)

-- The hash of a node's virtual node `i`.
unfoldable pub virtual_hash : Node → ℕ → ℕ
unfolding hash_key decimal
virtual_hash node i = hash_key (node.id ⧺ ":" ⧺ decimal i)

-- The loop of `AddNode` over the virtual nodes from `i` on, of which `left` remain.
unfoldable pub add_from : Ring → Node → ℕ → ℕ → Ring
unfolding put_node
add_from ring node i zero = ring
add_from ring node i (suc left) =
    let hash = virtual_hash node i in
    add_from
      (record ring {
        nodes = put_node hash node ring.nodes;
        sorted_keys = ring.sorted_keys ++ hash ∷ [];
      })
      node (i + 1) left

unfoldable pub add_node : Ring → Node → Ring
unfolding add_from sort
add_node ring node =
    let added = add_from ring node 0 ring.virtual_nodes in
    record added { sorted_keys = sort ltb added.sorted_keys }

-- The hashes of a map of nodes.
unfoldable pub hashes : Nodes → List ℕ
hashes [] = []
hashes ((at, node) ∷ rest) = at ∷ hashes rest

abbrev pub is_other : String → ℕ × Node → Bool
is_other node_id (at, node) = not (str_eq node.id node_id)

unfoldable pub remove_node : Ring → String → Ring
unfolding keep hashes sort
remove_node ring node_id =
    let kept = keep (is_other node_id) ring.nodes in
    record ring { nodes = kept; sorted_keys = sort ltb (hashes kept) }

abbrev pub or_last : Option ℕ → ℕ
or_last none = 0
or_last (some key) = key

-- `r.sortedKeys[i] >= hash`, for an index within the bounds.
unfoldable pub reaches : List ℕ → ℕ → ℕ → Bool
reaches keys hash i = leb hash (or_last (get_elem? keys i))

-- The loop of `sort.Search` on the half-open range from `lo` to `hi`, which halves it each time.
-- The fuel is one more than the width of the range.
unfoldable pub search_from : List ℕ → ℕ → ℕ → ℕ → ℕ → Option ℕ
unfolding reaches
search_from keys hash zero lo hi = none
search_from keys hash (suc fuel) lo hi =
    let mid = (lo + hi) / 2 in
    let upper = search_from keys hash fuel (mid + 1) hi in
    let lower = search_from keys hash fuel lo mid in
    if ltb lo hi then if reaches keys hash mid then lower else upper else some lo

abbrev pub wrap : List ℕ → Option ℕ → Option ℕ
wrap keys none = none
wrap keys (some i) = some (if i == length keys then 0 else i)

-- The index of the virtual node that a hash belongs to.
unfoldable pub search_ring : Ring → ℕ → Option ℕ
unfolding search_from
search_ring ring hash =
    wrap ring.sorted_keys (
      search_from ring.sorted_keys hash (suc (length ring.sorted_keys)) 0 (length ring.sorted_keys))

-- How a read of the ring ends: with the error, in a panic, or with a result.
pub data Answer (A : Type 0) : Type 0 where
  no_nodes panicked : Answer A
  found : A → Answer A

-- The node of the virtual node at an index; `none` is an index out of range or a nil pointer.
unfoldable pub node_of : Ring → ℕ → Option Node
unfolding node_at
node_of ring i = elim (get_elem? ring.sorted_keys i) [
  | none ↦ none
  | some hash ↦ node_at hash ring.nodes
]

abbrev pub answer_at : Ring → Option ℕ → Answer (Option Node)
answer_at ring none = panicked
answer_at ring (some i) = elim (get_elem? ring.sorted_keys i) [
  | none ↦ panicked
  | some hash ↦ found (node_at hash ring.nodes)
]

-- A hash that the map lacks gives a nil pointer and no error.
unfoldable pub get_node : Ring → String → Answer (Option Node)
unfolding search_ring hash_key node_at
get_node ring key =
    if length ring.sorted_keys == 0
    then no_nodes
    else answer_at ring (search_ring ring (hash_key key))

unfoldable pub has_id : String → List Node → Bool
has_id node_id [] = false
has_id node_id (node ∷ rest) = if str_eq node.id node_id then true else has_id node_id rest

-- The loop of `GetNodes` from round `i` on, of which `left` remain at most. `seen` has the identifiers
-- of the nodes that were taken, and no others.
unfoldable pub collect : Ring → ℕ → ℕ → ℕ → ℕ → List Node → Answer (List Node)
unfolding node_of has_id
collect ring idx count i zero taken = found taken
collect ring idx count i (suc left) taken = elim (ltb (length taken) count) [
  | false ↦ found taken
  | true ↦ elim (node_of ring ((idx + i) % length ring.sorted_keys)) [
    | none ↦ panicked
    | some node ↦
        collect ring idx count (i + 1) left
          (if has_id node.id taken then taken else taken ++ node ∷ [])
  ]
]

abbrev pub collect_at : Ring → ℕ → Option ℕ → Answer (List Node)
collect_at ring count none = panicked
collect_at ring count (some idx) = collect ring idx count 0 (length ring.sorted_keys) []

unfoldable pub get_nodes : Ring → String → ℕ → Answer (List Node)
unfolding search_ring hash_key collect
get_nodes ring key count =
    let most = length ring.nodes / ring.virtual_nodes in
    if length ring.sorted_keys == 0
    then no_nodes
    else collect_at ring (if ltb most count then most else count) (search_ring ring (hash_key key))
