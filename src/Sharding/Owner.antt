-- ===== src/Sharding/Owner.antt =====
-- The node that a key belongs to (GetNode of core/sharding.go).
use toll_mesh_store.Common.{
  ℕ, zero, suc, ◌≡◌, ◌≤◌, ◌<◌, ◌⊎◌, refl, sym, ap, subst, ◌∙◌, Bool, true, false, ◌==◌, ltb, ==_iff,
  if◌then◌else◌, String, Option, none, some, List, [], ◌∷◌, length, get_elem?, is_some, Sorted,
  Bool-cases, inl, inr, arith,
}
use toll_mesh_store.Sharding.{
  Node, Nodes, node_at, node_of, Ring, search_ring, hash_key, Answer, no_nodes, panicked, found,
  answer_at, get_node,
}
use toll_mesh_store.Sharding.Search.{Splits, key_at, search-Splits, key_at_mono}

unfoldable pub has : ℕ → List ℕ → Bool
has key [] = false
has key (k ∷ keys) = if k == key then true else has key keys

-- A Go map holds a key once.
abbrev pub Once : Nodes → Type 0
Once [] = Unit
Once ((at, node) ∷ rest) = (node_at at rest ≡ none) × Once rest

-- The sorted keys are in order, and are the hashes that the map has.
pub record IsRing (ring : Ring) : Type 0 where
  pub once : Once ring.nodes
  pub ordered : Sorted ltb ring.sorted_keys
  pub same : (key : ℕ) → has key ring.sorted_keys ≡ is_some (node_at key ring.nodes)

-- The key that a hash belongs to: the least that is not below it, or the least of all where every
-- one is below it.
pub record Successor (keys : List ℕ) (hash key : ℕ) : Type 0 where
  pub member : has key keys ≡ true
  pub nearest :
      ((hash ≤ key) × ((k : ℕ) → has k keys ≡ true → hash ≤ k → key ≤ k))
      ⊎ (((k : ℕ) → has k keys ≡ true → k < hash) × ((k : ℕ) → has k keys ≡ true → key ≤ k))

pub Successor-unique :
    (keys : List ℕ) (hash a b : ℕ) → Successor keys hash a → Successor keys hash b → a ≡ b
Successor-unique keys hash a b s t = elim s.nearest [
  | inl p ↦ elim t.nearest [
    | inl q ↦ let u = p.1 b t.member q.0 in let v = q.1 a s.member p.0 in omega arith
    | inr q ↦ let u = q.0 a s.member in let v = p.0 in absurd (omega arith)
  ]
  | inr p ↦ elim t.nearest [
    | inl q ↦ let u = p.0 b t.member in let v = q.0 in absurd (omega arith)
    | inr q ↦ let u = p.1 b t.member in let v = q.1 a s.member in omega arith
  ]
]

has-key_at : (keys : List ℕ) (i : ℕ) → i < length keys → has (key_at keys i) keys ≡ true
unfolding has
has-key_at [] i h = elim h [ ]
has-key_at (k ∷ keys) zero h = ground (arith, ==_iff k k)
has-key_at (k ∷ keys) (suc i) h = ground (arith, has-key_at keys i)

pub has-index :
    (keys : List ℕ) (key : ℕ)
    → has key keys ≡ true
    → (i : ℕ) × (i < length keys) × (key_at keys i ≡ key)
unfolding has
has-index [] key h = absurd (cc)
has-index (k ∷ keys) key h = elim (Bool-cases (k == key)) [
  | inl e ↦ (0, omega arith, (==_iff k key).0 e)
  | inr n ↦ let (i, p, q) = has-index keys key (ground (arith, h, n)) in (suc i, omega arith, q)
]

get_elem?-key_at :
    (keys : List ℕ) (i : ℕ) → i < length keys → get_elem? keys i ≡ some (key_at keys i)
get_elem?-key_at [] i h = elim h [ ]
get_elem?-key_at (k ∷ keys) zero h = refl
get_elem?-key_at (k ∷ keys) (suc i) h = get_elem?-key_at keys i (omega arith)

module _ (keys : List ℕ) (hash r : ℕ) (s : Splits keys hash r) (sorted : Sorted ltb keys) where
  Splits-Successor : r < length keys → Successor keys hash (key_at keys r)
  Splits-Successor h = record {
    member = has-key_at keys r h;
    nearest = inl (
      s.above r (omega arith) h,
      λ k m p.
          let (i, l, e) = has-index keys k m in
          elim (Bool-cases (ltb i r)) [
            | inl lt ↦ let b = s.below i (ground arith) in absurd (omega arith)
            | inr ge ↦ let c = key_at_mono keys r i sorted (ground arith) l in omega arith
          ],
    );
  }

  wrapped-Successor : r ≡ length keys → 0 < length keys → Successor keys hash (key_at keys 0)
  wrapped-Successor e h = record {
    member = has-key_at keys 0 h;
    nearest = inr (
      λ k m. let (i, l, f) = has-index keys k m in let b = s.below i (omega arith) in omega arith,
      λ k m.
          let (i, l, f) = has-index keys k m in
          let c = key_at_mono keys 0 i sorted (omega arith) l in omega arith,
    );
  }

-- The index that the search gives, on a ring that is not empty.
pub search_ring-Successor :
    (ring : Ring) (hash : ℕ)
    → Sorted ltb ring.sorted_keys
    → 0 < length ring.sorted_keys
    → (i : ℕ) × (search_ring ring hash ≡ some i)
      × (i < length ring.sorted_keys)
      × Successor ring.sorted_keys hash (key_at ring.sorted_keys i)
unfolding search_ring
search_ring-Successor ring hash sorted h =
    let keys = ring.sorted_keys in
    let (r, e, s) = search-Splits keys hash sorted in
    elim (Bool-cases (r == length keys)) [
      | inl end ↦ (
        0,
        rw (e, end) refl,
        h,
        wrapped-Successor keys hash r s sorted ((==_iff r (length keys)).0 end) h,
      )
      | inr before ↦
          let p = s.inside in
          let l : r < length keys = ground arith in
          (r, rw (e, before) refl, l, Splits-Successor keys hash r s sorted l)
    ]

-- How a lookup ends.
abbrev pub Owns : Ring → ℕ → Answer (Option Node) → Type 0
Owns ring hash no_nodes = (key : ℕ) → node_at key ring.nodes ≡ none
Owns ring hash panicked = ⊥
Owns ring hash (found o) =
    (key : ℕ) × (node : Node) × (o ≡ some node)
    × (node_at key ring.nodes ≡ some node)
    × Successor ring.sorted_keys hash key

pub not_is_some {ℓ} : {A : Type ℓ} (o : Option A) → is_some o ≡ false → o ≡ none
not_is_some none h = refl
not_is_some (some a) h = absurd (cc)

is_some_lem {ℓ} : {A : Type ℓ} (o : Option A) → is_some o ≡ true → (a : A) × (o ≡ some a)
is_some_lem none h = absurd (cc)
is_some_lem (some a) h = (a, refl)

pub has-empty : (keys : List ℕ) (key : ℕ) → length keys ≡ 0 → has key keys ≡ false
unfolding has
has-empty [] key h = refl
has-empty (k ∷ keys) key h = absurd (omega arith)

-- Every index of the ring has a node, which has a virtual node there.
pub node_of-IsRing :
    (ring : Ring) (i : ℕ)
    → IsRing ring
    → i < length ring.sorted_keys
    → (node : Node) × (node_of ring i ≡ some node)
      × (node_at (key_at ring.sorted_keys i) ring.nodes ≡ some node)
unfolding node_of
node_of-IsRing ring i w h =
    let k = key_at ring.sorted_keys i in
    let there = get_elem?-key_at ring.sorted_keys i h in
    let (node, at) =
      is_some_lem (node_at k ring.nodes) (sym (w.same k) ∙ has-key_at ring.sorted_keys i h) in
    (node, rw (node_of, there) at, at)

answer_at_lem :
    (ring : Ring) (i key : ℕ)
    → get_elem? ring.sorted_keys i ≡ some key
    → answer_at ring (some i) ≡ found (node_at key ring.nodes)
answer_at_lem ring i key h = ground (arith, h)

-- A lookup on a ring neither panics nor gives a nil pointer. It gives the node of the first virtual
-- node at or after the key's hash, and of the first of all where there is none; it gives the error
-- only where no node is in the ring.
pub get_node-Owns :
    (ring : Ring) (key : String) → IsRing ring → Owns ring (hash_key key) (get_node ring key)
unfolding get_node
get_node-Owns ring key w = elim (Bool-cases (length ring.sorted_keys == 0)) [
  | inl empty ↦ rw empty λ k.
      not_is_some (node_at k ring.nodes)
        (sym (w.same k) ∙ has-empty ring.sorted_keys k (ground arith))
  | inr some_left ↦
      let (i, e, l, s) = search_ring-Successor ring (hash_key key) w.ordered (ground arith) in
      let there = get_elem?-key_at ring.sorted_keys i l in
      let k = key_at ring.sorted_keys i in
      let (node, at) = is_some_lem (node_at k ring.nodes) (sym (w.same k) ∙ s.member) in
      rw (some_left, e, answer_at_lem ring i k there) (k, node, at, at, s)
]

-- What the ring answers, from the virtual node that the hash belongs to.
pub get_node-Successor :
    (ring : Ring) (key : String) (k : ℕ) (node : Node)
    → IsRing ring
    → Successor ring.sorted_keys (hash_key key) k
    → node_at k ring.nodes ≡ some node
    → get_node ring key ≡ found (some node)
get_node-Successor ring key k node w s at = owned (get_node ring key) (get_node-Owns ring key w)
  where
    owned : (a : Answer (Option Node)) → Owns ring (hash_key key) a → a ≡ found (some node)
    owned no_nodes h = cc (h k, at)
    owned panicked h = absurd h
    owned (found o) (j, n, e, there, t) =
        let same = Successor-unique ring.sorted_keys (hash_key key) j k t s in cc

-- The node at the index that the search gives is the one that the ring answers with.
pub get_node-search_ring :
    (ring : Ring) (key : String)
    → IsRing ring
    → 0 < length ring.sorted_keys
    → (i : ℕ) × (search_ring ring (hash_key key) ≡ some i)
      × (i < length ring.sorted_keys)
      × (get_node ring key ≡ found (node_of ring i))
get_node-search_ring ring key w h =
    let (i, e, l, s) = search_ring-Successor ring (hash_key key) w.ordered h in
    let (node, there, at) = node_of-IsRing ring i w l in
    (
      i,
      e,
      l,
      get_node-Successor ring key (key_at ring.sorted_keys i) node w s at ∙ ap found (sym there),
    )

-- The virtual node of an answer.
pub owner :
    (ring : Ring) (key : String) (node : Node)
    → IsRing ring
    → get_node ring key ≡ found (some node)
    → (k : ℕ) × (node_at k ring.nodes ≡ some node) × Successor ring.sorted_keys (hash_key key) k
owner ring key node w e =
    let (k, n, same, at, s) = subst (Owns ring (hash_key key)) e (get_node-Owns ring key w) in
    (k, at ∙ sym same, s)
