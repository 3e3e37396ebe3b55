-- ===== src/Sharding/Changes.antt =====
-- Nodes that join and leave (AddNode and RemoveNode of core/sharding.go).
use toll_mesh_store.Common.{
  ℕ, zero, suc, ◌+◌, ◌≡◌, ◌≢◌, ◌⊎◌, refl, sym, ap, ◌∙◌, true, ◌==◌, ltb, ==_iff, if◌then◌else◌,
  String, str_eq, eq_iff, Option, none, some, List, [], ◌∷◌, ◌++◌, sort, place, keep, is_some,
  WeakOrder, sort-Sorted, Bool-cases, inl, inr, arith,
}
use toll_mesh_store.Sharding.{
  Node, Nodes, node_at, put_node, Ring, virtual_hash, add_from, add_node, hashes, is_other,
  remove_node, hash_key, Answer, no_nodes, panicked, found, get_node,
}
use toll_mesh_store.Sharding.Owner.{
  has, Once, IsRing, Successor, Owns, get_node-Owns, get_node-Successor, owner,
}

pub ltb-WeakOrder : WeakOrder ltb
ltb-WeakOrder = record {
  irrefl = λ a. ground arith;
  asym = λ a b h. ground (arith, h);
  false_trans = λ a b c h k. ground (arith, h, k);
}

has-place :
    (key k : ℕ) (keys : List ℕ)
    → has key (place ltb k keys) ≡ (if k == key then true else has key keys)
unfolding has place
has-place key k [] = refl
has-place key k (j ∷ keys) = ground (arith, has-place key k keys)

has-sort : (key : ℕ) (keys : List ℕ) → has key (sort ltb keys) ≡ has key keys
unfolding sort has
has-sort key [] = refl
has-sort key (k ∷ keys) = ground (arith, has-place key k (sort ltb keys), has-sort key keys)

has-append :
    (key k : ℕ) (keys : List ℕ)
    → has key (keys ++ k ∷ []) ≡ (if k == key then true else has key keys)
unfolding has
has-append key k [] = refl
has-append key k (j ∷ keys) = ground (arith, has-append key k keys)

has-hashes : (key : ℕ) (nodes : Nodes) → has key (hashes nodes) ≡ is_some (node_at key nodes)
unfolding has hashes node_at
has-hashes key [] = refl
has-hashes key ((at, node) ∷ rest) = ground (arith, has-hashes key rest)

node_at-put_node :
    (key hash : ℕ) (node : Node) (nodes : Nodes)
    → node_at key (put_node hash node nodes)
      ≡ (if hash == key then some node else node_at key nodes)
unfolding node_at put_node
node_at-put_node key hash node [] = refl
node_at-put_node key hash node ((at, old) ∷ rest) =
    ground
      (arith, node_at-put_node key hash node rest, ==_iff at hash, ==_iff at key, ==_iff hash key)

put_node-Once :
    (hash : ℕ) (node : Node) (nodes : Nodes) → Once nodes → Once (put_node hash node nodes)
unfolding node_at put_node
put_node-Once hash node [] o = (refl, tt)
put_node-Once hash node ((at, old) ∷ rest) o = ground (
  arith,
  node_at-put_node at hash node rest,
  put_node-Once hash node rest o.1,
  ==_iff at hash,
  ==_iff hash at,
)

-- What the owner of a hash is, unless the node is the one that leaves.
abbrev unless : String → Option Node → Option Node
unless node_id none = none
unless node_id (some node) = if str_eq node.id node_id then none else some node

node_at-keep :
    (node_id : String) (key : ℕ) (nodes : Nodes)
    → Once nodes
    → node_at key (keep (is_other node_id) nodes) ≡ unless node_id (node_at key nodes)
unfolding node_at keep
node_at-keep node_id key [] o = refl
node_at-keep node_id key ((at, node) ∷ rest) o =
    ground (arith, node_at-keep node_id key rest o.1, ==_iff at key, o.0)

keep-Once : (node_id : String) (nodes : Nodes) → Once nodes → Once (keep (is_other node_id) nodes)
unfolding keep
keep-Once node_id [] o = tt
keep-Once node_id ((at, node) ∷ rest) o =
    ground (arith, node_at-keep node_id at rest o.1, keep-Once node_id rest o.1, o.0)

Successor-sub :
    (keys fewer : List ℕ) (hash key : ℕ)
    → ((k : ℕ) → has k fewer ≡ true → has k keys ≡ true)
    → Successor keys hash key
    → has key fewer ≡ true
    → Successor fewer hash key
Successor-sub keys fewer hash key sub s m = record {
  member = m;
  nearest = elim s.nearest [
    | inl p ↦ inl (p.0, λ k h. p.1 k (sub k h))
    | inr p ↦ inr (λ k h. p.0 k (sub k h), λ k h. p.1 k (sub k h))
  ];
}

-- What a ring with some of a node's virtual nodes added has at a hash.
record Added (ring after : Ring) (node : Node) : Type 0 where
  once : Once after.nodes
  same : (key : ℕ) → has key after.sorted_keys ≡ is_some (node_at key after.nodes)
  old : (key : ℕ) → has key ring.sorted_keys ≡ true → has key after.sorted_keys ≡ true
  at :
      (key : ℕ)
      → (node_at key after.nodes ≡ some node) ⊎ (node_at key after.nodes ≡ node_at key ring.nodes)

add_from-Added :
    (start ring : Ring) (node : Node) (i left : ℕ)
    → Added start ring node
    → Added start (add_from ring node i left) node
unfolding add_from
add_from-Added start ring node i zero a = a
add_from-Added start ring node i (suc left) a =
    let hash = virtual_hash node i in
    let one : Ring = record ring {
      nodes = put_node hash node ring.nodes;
      sorted_keys = ring.sorted_keys ++ hash ∷ [];
    } in
    add_from-Added start one node (i + 1) left (record {
      once = put_node-Once hash node ring.nodes a.once;
      same = λ key. ground (
        arith,
        has-append key hash ring.sorted_keys,
        node_at-put_node key hash node ring.nodes,
        a.same key,
      );
      old = λ key h. ground (arith, has-append key hash ring.sorted_keys, a.old key h);
      at = λ key. elim (Bool-cases (hash == key)) [
        | inl e ↦ inl (node_at-put_node key hash node ring.nodes ∙ rw e refl)
        | inr n ↦
            let kept : node_at key one.nodes ≡ node_at key ring.nodes =
              node_at-put_node key hash node ring.nodes ∙ rw n refl in
            elim (a.at key) [ inl p ↦ inl (kept ∙ p) | inr p ↦ inr (kept ∙ p) ]
      ];
    })

add_node-Added : (ring : Ring) (node : Node) → IsRing ring → Added ring (add_node ring node) node
unfolding add_node
add_node-Added ring node w =
    let after = add_from ring node 0 ring.virtual_nodes in
    let a : Added ring after node =
      add_from-Added ring ring node 0 ring.virtual_nodes
        (record { once = w.once; same = w.same; old = λ key h. h; at = λ key. inr refl }) in
    record {
      once = a.once;
      same = λ key. has-sort key after.sorted_keys ∙ a.same key;
      old = λ key h. has-sort key after.sorted_keys ∙ a.old key h;
      at = a.at;
    }

pub add_node-IsRing : (ring : Ring) (node : Node) → IsRing ring → IsRing (add_node ring node)
unfolding add_node
add_node-IsRing ring node w =
    let a = add_node-Added ring node w in
    record {
      once = a.once;
      ordered = sort-Sorted ltb ltb-WeakOrder (add_from ring node 0 ring.virtual_nodes).sorted_keys;
      same = a.same;
    }

pub remove_node-IsRing :
    (ring : Ring) (node_id : String) → IsRing ring → IsRing (remove_node ring node_id)
unfolding remove_node
remove_node-IsRing ring node_id w =
    let kept = keep (is_other node_id) ring.nodes in
    record {
      once = keep-Once node_id ring.nodes w.once;
      ordered = sort-Sorted ltb ltb-WeakOrder (hashes kept);
      same = λ key. has-sort key (hashes kept) ∙ has-hashes key kept;
    }

pub data Change : Type 0 where
  join : Node → Change
  leave : String → Change

unfoldable pub run : Ring → List Change → Ring
unfolding add_node remove_node
run ring [] = ring
run ring (join node ∷ rest) = run (add_node ring node) rest
run ring (leave node_id ∷ rest) = run (remove_node ring node_id) rest

-- However nodes join and leave, and join again, the keys of the ring are in order and are the
-- hashes that its map has.
pub run-IsRing : (ring : Ring) (changes : List Change) → IsRing ring → IsRing (run ring changes)
unfolding run
run-IsRing ring [] w = w
run-IsRing ring (join node ∷ rest) w =
    run-IsRing (add_node ring node) rest (add_node-IsRing ring node w)
run-IsRing ring (leave node_id ∷ rest) w =
    run-IsRing (remove_node ring node_id) rest (remove_node-IsRing ring node_id w)

-- A node that joins takes keys over, and no key moves between two others: a key then belongs to the
-- new node, or to the one that it belonged to.
pub get_node-add_node :
    (ring : Ring) (node : Node) (key : String)
    → IsRing ring
    → (get_node (add_node ring node) key ≡ found (some node))
      ⊎ (get_node (add_node ring node) key ≡ get_node ring key)
get_node-add_node ring node key w =
    let after = add_node ring node in
    let a = add_node-Added ring node w in
    let w' = add_node-IsRing ring node w in
    moved a w' (get_node after key) (get_node-Owns after key w')
  where
    emptied :
        Added ring (add_node ring node) node
        → ((k : ℕ) → node_at k (add_node ring node).nodes ≡ none)
        → (o : Answer (Option Node)) → Owns ring (hash_key key) o
        → no_nodes ≡ o
    emptied a h no_nodes p = refl
    emptied a h panicked p = absurd p
    emptied a h (found o) (k, n, e, there, s) = elim (a.at k) [
      | inl q ↦ absurd (cc (h k))
      | inr q ↦ absurd (cc (h k))
    ]

    moved :
        Added ring (add_node ring node) node
        → IsRing (add_node ring node)
        → (o : Answer (Option Node)) → Owns (add_node ring node) (hash_key key) o
        → (o ≡ found (some node)) ⊎ (o ≡ get_node ring key)
    moved a w' no_nodes h = inr (emptied a h (get_node ring key) (get_node-Owns ring key w))
    moved a w' panicked h = absurd h
    moved a w' (found o) (k, n, e, there, s) = elim (a.at k) [
      | inl q ↦ inl (cc)
      | inr q ↦
          let before : node_at k ring.nodes ≡ some n = sym q ∙ there in
          let t =
            Successor-sub (add_node ring node).sorted_keys ring.sorted_keys (hash_key key) k a.old s
              (w.same k ∙ ap is_some before) in
          inr (ap found e ∙ sym (get_node-Successor ring key k n w t before))
    ]

unless-other :
    (node_id : String) (node : Node) → node.id ≢ node_id → unless node_id (some node) ≡ some node
unless-other node_id node n = ground (arith, eq_iff node.id node_id)

unless-ne :
    (node_id : String) (node : Node) (o : Option Node)
    → unless node_id o ≡ some node
    → node.id ≢ node_id
unless-ne node_id node none h e = absurd (cc)
unless-ne node_id node (some n) h e = ground (arith, eq_iff n.id node_id, h, e)

fewer-has :
    (ring : Ring) (node_id : String) (k : ℕ)
    → IsRing ring
    → has k (remove_node ring node_id).sorted_keys ≡ true
    → has k ring.sorted_keys ≡ true
unfolding remove_node
fewer-has ring node_id k w h =
    let kept = keep (is_other node_id) ring.nodes in
    ground (
      arith,
      w.same k,
      h,
      has-sort k (hashes kept),
      has-hashes k kept,
      node_at-keep node_id k ring.nodes w.once,
    )

-- When a node leaves, the keys of the other nodes stay where they are, and no key belongs to that
-- node any more.
pub get_node-remove_node :
    (ring : Ring) (node_id key : String)
    → IsRing ring
    → ((node : Node)
        → get_node ring key ≡ found (some node)
        → node.id ≢ node_id
        → get_node (remove_node ring node_id) key ≡ found (some node))
      × ((node : Node)
          → get_node (remove_node ring node_id) key ≡ found (some node)
          → node.id ≢ node_id)
unfolding remove_node
get_node-remove_node ring node_id key w =
    let after = remove_node ring node_id in
    let w' = remove_node-IsRing ring node_id w in
    (
      λ node e n.
          let (k, at, s) = owner ring key node w e in
          let still : node_at k after.nodes ≡ some node =
            node_at-keep node_id k ring.nodes w.once
            ∙ ap (unless node_id) at
            ∙ unless-other node_id node n in
          get_node-Successor after key k node w'
            (Successor-sub ring.sorted_keys after.sorted_keys (hash_key key) k
              (λ j. fewer-has ring node_id j w) s (w'.same k ∙ ap is_some still))
            still,
      λ node e.
          let (k, at, s) = owner after key node w' e in
          unless-ne node_id node (node_at k ring.nodes)
            (sym (node_at-keep node_id k ring.nodes w.once) ∙ at),
    )
