-- ===== src/Sharding/Tests.antt =====
-- The theorems on the ring, on one of two nodes with two virtual nodes each.
use toll_mesh_store.Common.{ℕ, ◌≡◌, ◌⊎◌, ◌≢◌, refl, String, some, List, [], ◌∷◌}
use toll_mesh_store.Sharding.{
  Node, Ring, new_ring, hash_key, virtual_hash, add_node, remove_node, wrap, search_ring, found,
  get_node, get_nodes, node_at,
}
use toll_mesh_store.Sharding.Search.{first_from, search_ring-first_from}
use toll_mesh_store.Sharding.Owner.{has, IsRing}
use toll_mesh_store.Sharding.Changes.{
  Change, join, run, run-IsRing, get_node-add_node, get_node-remove_node,
}
use toll_mesh_store.Sharding.Nodes.{Replicas, get_nodes-Replicas}

abbrev node : String → Node
node id = record { id = id; address = "10.0.0.1"; port = 7946 }

abbrev joined : List Change
joined = join (node "a") ∷ join (node "b") ∷ []

abbrev ring : Ring
ring = run (new_ring 2 3) joined

empty-IsRing : (virtual_nodes : ℕ) → IsRing (new_ring virtual_nodes 3)
unfolding new_ring node_at has
empty-IsRing virtual_nodes = record { once = tt; ordered = tt; same = λ key. refl }

ring-IsRing : IsRing ring
ring-IsRing = run-IsRing (new_ring 2 3) joined (empty-IsRing 2)

run-IsRing_example : IsRing (run (new_ring 2 3) joined)
run-IsRing_example = run-IsRing (new_ring 2 3) joined (empty-IsRing 2)

-- The hash of one letter, as the tables of FNV-1a give it.
hash_key_a : hash_key "a" ≡ 0xaf63dc4c8601ec8c
unfolding hash_key
hash_key_a = refl

search_ring-first_from_example :
    search_ring ring (hash_key "key")
    ≡ wrap ring.sorted_keys (some (first_from ring.sorted_keys (hash_key "key")))
search_ring-first_from_example = search_ring-first_from ring (hash_key "key") ring-IsRing.ordered

get_node-add_node_example :
    (get_node (add_node ring (node "c")) "key" ≡ found (some (node "c")))
    ⊎ (get_node (add_node ring (node "c")) "key" ≡ get_node ring "key")
get_node-add_node_example = get_node-add_node ring (node "c") "key" ring-IsRing

get_node-remove_node_example :
    ((n : Node)
      → get_node ring "key" ≡ found (some n)
      → n.id ≢ "a"
      → get_node (remove_node ring "a") "key" ≡ found (some n))
    × ((n : Node) → get_node (remove_node ring "a") "key" ≡ found (some n) → n.id ≢ "a")
get_node-remove_node_example = get_node-remove_node ring "a" "key" ring-IsRing

get_nodes-Replicas_example : Replicas ring "key" 2 (get_nodes ring "key" 2)
get_nodes-Replicas_example = get_nodes-Replicas ring "key" 2 ring-IsRing

-- Both nodes hold a replica, the owner of the key first.
get_nodes_of_two : get_nodes ring "key" 5 ≡ found (node "a" ∷ node "b" ∷ [])
unfolding get_nodes run add_node new_ring remove_node virtual_hash
get_nodes_of_two = refl
