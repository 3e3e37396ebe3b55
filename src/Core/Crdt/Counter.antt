-- ===== src/Core/Crdt/Counter.antt =====
-- The grow-only counter.
use toll_mesh_store.Common.{
  ℕ, ◌+◌, ◌≤◌, ◌≡◌, refl, String, Map, lookup, insert, erase, Unique, lookup-insert, lookup-erase,
  insert-Unique, erase-Unique, eq_iff, str_eq, Option, none, some, [], ◌∷◌, arith, ltb,
  if◌then◌else◌,
}
use toll_mesh_store.Core.Crdt.{
  GCounter, or_zero, count_of, increment, sum_counts, value, merge_wins, merge_counts, merge,
}

abbrev pub IsValid : GCounter → Type 0
IsValid g = Unique g.counts

-- The larger of two counts, where a node that is absent has none.
abbrev pub join : Option ℕ → Option ℕ → Option ℕ
join none b = b
join (some a) none = some a
join (some a) (some b) = if ltb a b then some b else some a

lookup-merge_counts :
    (g other : Map ℕ) (node : String)
    → Unique other
    → lookup node (merge_counts g other) ≡ join (lookup node g) (lookup node other)
unfolding merge_counts lookup
lookup-merge_counts g [] node u = ground arith
lookup-merge_counts g ((n, c) ∷ rest) node u = ground (
  arith,
  lookup-merge_counts (if merge_wins (lookup n g) c then insert n c g else g) rest node u.1,
  lookup-insert n node c g,
  eq_iff n node,
)

merge_counts-Unique : (g other : Map ℕ) → Unique g → Unique (merge_counts g other)
unfolding merge_counts
merge_counts-Unique g [] u = u
merge_counts-Unique g ((n, c) ∷ rest) u =
    merge_counts-Unique (if merge_wins (lookup n g) c then insert n c g else g) rest
      (ground (arith, insert-Unique n c g u))

pub merge-IsValid : (g other : GCounter) → IsValid g → IsValid (merge g other)
unfolding merge
merge-IsValid g other u = merge_counts-Unique g.counts other.counts u

pub lookup-merge :
    (g other : GCounter) (node : String)
    → IsValid other
    → lookup node (merge g other).counts ≡ join (lookup node g.counts) (lookup node other.counts)
unfolding merge
lookup-merge g other node u = lookup-merge_counts g.counts other.counts node u

-- Merging is commutative, associative and idempotent in the count that each node has, for counters
-- that hold each node once.
pub merge_semilattice :
    (g h k : GCounter) (node : String)
    → IsValid g
    → IsValid h
    → IsValid k
    → (lookup node (merge g h).counts ≡ lookup node (merge h g).counts)
      × (lookup node (merge (merge g h) k).counts ≡ lookup node (merge g (merge h k)).counts)
      × (lookup node (merge g g).counts ≡ lookup node g.counts)
merge_semilattice g h k node u v w =
    let gh = lookup-merge g h node v in
    let hg = lookup-merge h g node u in
    let left = lookup-merge (merge g h) k node w in
    let right = lookup-merge g (merge h k) node (merge-IsValid h k v) in
    let hk = lookup-merge h k node w in
    (
      ground (arith, gh, hg),
      ground (arith, gh, left, right, hk),
      ground (arith, lookup-merge g g node u),
    )

-- The sum without an accumulator.
sum_of : Map ℕ → ℕ
sum_of [] = 0
sum_of ((n, c) ∷ rest) = c + sum_of rest

sum_counts-eq : (total : ℕ) (m : Map ℕ) → sum_counts total m ≡ total + sum_of m
unfolding sum_counts sum_of
sum_counts-eq total [] = omega arith
sum_counts-eq total ((n, c) ∷ rest) = omega (arith, sum_counts-eq (total + c) rest)

value-eq : (g : GCounter) → value g ≡ sum_of g.counts
unfolding value
value-eq g = omega (arith, sum_counts-eq 0 g.counts)

erase_absent : (k : String) (m : Map ℕ) → lookup k m ≡ none → sum_of (erase k m) ≡ sum_of m
unfolding lookup erase sum_of
erase_absent k [] h = refl
erase_absent k ((j, c) ∷ rest) h = ground (arith, erase_absent k rest)

sum_of-erase :
    (k : String) (m : Map ℕ) → Unique m → sum_of m ≡ or_zero (lookup k m) + sum_of (erase k m)
unfolding lookup erase sum_of
sum_of-erase k [] u = omega arith
sum_of-erase k ((j, c) ∷ rest) u =
    ground (arith, sum_of-erase k rest u.1, erase_absent k rest, eq_iff j k)

-- No node counts for more in the first than in the second.
abbrev pub Below : Map ℕ → Map ℕ → Type 0
Below m m' = (k : String) → or_zero (lookup k m) ≤ or_zero (lookup k m')

Below-erase :
    (n : String) (c : ℕ) (rest m' : Map ℕ)
    → Unique ((n, c) ∷ rest)
    → Below ((n, c) ∷ rest) m'
    → Below rest (erase n m')
unfolding lookup
Below-erase n c rest m' u h k = ground (arith, h k, lookup-erase n k m', eq_iff n k, u.0)

sum_of_mono : (m m' : Map ℕ) → Unique m → Unique m' → Below m m' → sum_of m ≤ sum_of m'
unfolding sum_of lookup
sum_of_mono [] m' u u' h = omega arith
sum_of_mono ((n, c) ∷ rest) m' u u' h =
    let smaller =
      sum_of_mono rest (erase n m') u.1 (erase-Unique n m' u') (Below-erase n c rest m' u h) in
    ground (arith, h n, smaller, sum_of-erase n m' u', eq_iff n n)

value_mono : (g h : GCounter) → IsValid g → IsValid h → Below g.counts h.counts → value g ≤ value h
value_mono g h u v b = omega (arith, value-eq g, value-eq h, sum_of_mono g.counts h.counts u v b)

-- Merging loses no count: the merged value is at least that of either side.
pub value-merge_ge :
    (g h : GCounter)
    → IsValid g
    → IsValid h
    → (value g ≤ value (merge g h)) × (value h ≤ value (merge g h))
value-merge_ge g h u v =
    let w = merge-IsValid g h u in
    (
      value_mono g (merge g h) u w (λ k. ground (arith, lookup-merge g h k v)),
      value_mono h (merge g h) v w (λ k. ground (arith, lookup-merge g h k v)),
    )

-- Two nodes that have merged each other's counter read the same value.
pub value-merge_comm :
    (g h : GCounter) → IsValid g → IsValid h → value (merge g h) ≡ value (merge h g)
value-merge_comm g h u v =
    let a = merge-IsValid g h u in
    let b = merge-IsValid h g v in
    omega (
      arith,
      value_mono (merge g h) (merge h g) a b
          (λ k. ground (arith, lookup-merge g h k v, lookup-merge h g k u)),
      value_mono (merge h g) (merge g h) b a
          (λ k. ground (arith, lookup-merge g h k v, lookup-merge h g k u)),
    )

sum_of-insert :
    (k : String) (m : Map ℕ) → sum_of (insert k (or_zero (lookup k m) + 1) m) ≡ sum_of m + 1
unfolding insert lookup sum_of
sum_of-insert k [] = omega arith
sum_of-insert k ((j, c) ∷ rest) = ground (arith, sum_of-insert k rest)

-- An increment adds one to the value and to the count of its node, and leaves every other node.
pub value-increment :
    (g : GCounter) (node other : String)
    → (value (increment g node) ≡ value g + 1)
      × (count_of (increment g node) other
          ≡ (if str_eq node other then count_of g node + 1 else count_of g other))
unfolding increment count_of
value-increment g node other = (
  omega (arith, value-eq g, value-eq (increment g node), sum_of-insert node g.counts),
  ground (arith, lookup-insert node other (or_zero (lookup node g.counts) + 1) g.counts),
)

pub increment-IsValid : (g : GCounter) (node : String) → IsValid g → IsValid (increment g node)
unfolding increment
increment-IsValid g node u = insert-Unique node (count_of g node + 1) g.counts u

pub value_of_same :
    (g h : GCounter)
    → IsValid g
    → IsValid h
    → ((k : String) → lookup k g.counts ≡ lookup k h.counts)
    → value g ≡ value h
value_of_same g h u v same = omega (
  arith,
  value_mono g h u v (λ k. ground (arith, same k)),
  value_mono h g v u (λ k. ground (arith, same k)),
)
