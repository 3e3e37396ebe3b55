-- ===== src/Sharding/Nodes.antt =====
-- The nodes that hold a key's replicas (GetNodes of core/sharding.go).
use toll_mesh_store.Common.{
  ℕ, zero, suc, ◌+◌, ◌-◌, ◌/◌, ◌%◌, ◌≡◌, ◌≤◌, ◌<◌, ◌⊎◌, refl, sym, ap, subst, ◌∙◌, true, false,
  ◌==◌, ltb, ==_iff, ltb→lt, if◌then◌else◌, String, str_eq, eq_iff, Option, none, some, List, [],
  ◌∷◌, ◌++◌, length, is_some, length-append, Bool-cases, inl, inr, arith,
}
use toll_mesh_store.Sharding.{
  Node, node_at, Ring, Answer, no_nodes, panicked, found, node_of, has_id, get_node, collect,
  get_nodes,
}
use toll_mesh_store.Sharding.Search.{key_at}
use toll_mesh_store.Sharding.Owner.{
  IsRing, node_of-IsRing, get_node-search_ring, has-index, has-empty, not_is_some,
}

-- No two of the nodes have one identifier.
abbrev pub Distinct : List Node → Type 0
Distinct [] = Unit
Distinct (node ∷ rest) = (has_id node.id rest ≡ false) × Distinct rest

-- The nodes are on the ring.
abbrev pub OnRing : Ring → List Node → Type 0
OnRing ring [] = Unit
OnRing ring (node ∷ rest) = ((key : ℕ) × (node_at key ring.nodes ≡ some node)) × OnRing ring rest

has_id-append :
    (node_id : String) (node : Node) (taken : List Node)
    → has_id node_id (taken ++ node ∷ [])
      ≡ (if has_id node_id taken then true else str_eq node.id node_id)
unfolding has_id
has_id-append node_id node [] = ground arith
has_id-append node_id node (n ∷ taken) = ground (arith, has_id-append node_id node taken)

Distinct-append :
    (node : Node) (taken : List Node)
    → has_id node.id taken ≡ false
    → Distinct taken
    → Distinct (taken ++ node ∷ [])
unfolding has_id
Distinct-append node [] h d = (refl, tt)
Distinct-append node (n ∷ taken) h d = ground (
  arith,
  has_id-append n.id node taken,
  Distinct-append node taken,
  eq_iff node.id n.id,
  eq_iff n.id node.id,
)

OnRing-append :
    (ring : Ring) (node : Node) (taken : List Node) (key : ℕ)
    → node_at key ring.nodes ≡ some node
    → OnRing ring taken
    → OnRing ring (taken ++ node ∷ [])
OnRing-append ring node [] key h o = ((key, h), tt)
OnRing-append ring node (n ∷ taken) key h o = (o.0, OnRing-append ring node taken key h o.1)

abbrev pub first_of : List Node → Option Node
first_of [] = none
first_of (node ∷ rest) = some node

first_of-append :
    (node : Node) (taken : List Node) (o : Option Node)
    → 0 < length taken
    → first_of taken ≡ o
    → first_of (taken ++ node ∷ []) ≡ o
first_of-append node [] o h e = elim h [ ]
first_of-append node (n ∷ taken) o h e = e

has_id_self : (node : Node) (taken : List Node) → has_id node.id (taken ++ node ∷ []) ≡ true
has_id_self node taken = ground (arith, has_id-append node.id node taken, eq_iff node.id node.id)

has_id_of :
    (node n : Node) (taken : List Node)
    → some n ≡ some node
    → has_id node.id taken ≡ true
    → has_id n.id taken ≡ true
has_id_of node n taken same h =
    let e : n ≡ node = cc in subst (λ m. has_id m.id taken ≡ true) (sym e) h

has_id-length :
    (node_id : String) (taken : List Node) → has_id node_id taken ≡ true → 0 < length taken
unfolding has_id
has_id-length node_id [] h = absurd (cc)
has_id-length node_id (n ∷ taken) h = omega arith

length-le-take :
    (taken : List Node) (node : Node) (count : ℕ)
    → ltb (length taken) count ≡ true
    → length (taken ++ node ∷ []) ≤ count
length-le-take taken node count h = ground (arith, length-append taken (node ∷ []))

abbrev pub ring_size : Ring → ℕ
ring_size ring = length ring.sorted_keys

module _ (ring : Ring) (idx count : ℕ) where
  -- What the loop of `GetNodes` keeps, after `i` rounds.
  pub record Inv (i : ℕ) (taken : List Node) : Type 0 where
    pub distinct : Distinct taken
    pub few : length taken ≤ count
    pub there : OnRing ring taken
    pub start : i ≡ 0 → taken ≡ []
    pub begun : 0 < i → 0 < length taken
    pub lead : 0 < i → first_of taken ≡ node_of ring idx
    pub seen :
        (j : ℕ) (node : Node)
        → j < i
        → node_of ring ((idx + j) % ring_size ring) ≡ some node
        → has_id node.id taken ≡ true

  -- The round of a node that is new, and of one that is not.
  take-Inv :
      (i : ℕ) (taken : List Node) (node : Node) (key : ℕ)
      → idx < ring_size ring
      → Inv i taken
      → node_of ring ((idx + i) % ring_size ring) ≡ some node
      → node_at key ring.nodes ≡ some node
      → has_id node.id taken ≡ false
      → ltb (length taken) count ≡ true
      → Inv (i + 1) (taken ++ node ∷ [])
  take-Inv i taken node key small inv e at new fits = record {
    distinct = Distinct-append node taken new inv.distinct;
    few = length-le-take taken node count fits;
    there = OnRing-append ring node taken key at inv.there;
    start = λ h. absurd (omega arith);
    begun = λ h. omega (arith, length-append taken (node ∷ []));
    lead = λ h. elim (Bool-cases (i == 0)) [
      | inl z ↦
          let first : i ≡ 0 = (==_iff i 0).0 z in
          let here : (idx + i) % ring_size ring ≡ idx = grind arith in
          ap (λ ns. first_of (ns ++ node ∷ [])) (inv.start first) ∙ sym e ∙ ap (node_of ring) here
      | inr p ↦
          let later : 0 < i = ground arith in
          first_of-append node taken (node_of ring idx) (inv.begun later) (inv.lead later)
    ];
    seen = λ j n h f. elim (Bool-cases (ltb j i)) [
      | inl lt ↦
          let before = inv.seen j n (ground arith) f in
          ground (arith, has_id-append n.id node taken, before)
      | inr ge ↦
          let last : j ≡ i = ground arith in
          let same : some n ≡ some node =
            sym f ∙ ap (λ m. node_of ring ((idx + m) % ring_size ring)) last ∙ e in
          let self = has_id_self node taken in has_id_of node n (taken ++ node ∷ []) same self
    ];
  }

  skip-Inv :
      (i : ℕ) (taken : List Node) (node : Node)
      → Inv i taken
      → node_of ring ((idx + i) % ring_size ring) ≡ some node
      → has_id node.id taken ≡ true
      → Inv (i + 1) taken
  skip-Inv i taken node inv e old = record {
    distinct = inv.distinct;
    few = inv.few;
    there = inv.there;
    start = λ h. absurd (omega arith);
    begun = λ h. has_id-length node.id taken old;
    lead = λ h. elim (Bool-cases (i == 0)) [
      | inl z ↦
          let none_yet = ap length (inv.start ((==_iff i 0).0 z)) in
          let one = has_id-length node.id taken old in absurd (omega arith)
      | inr p ↦ inv.lead (ground arith)
    ];
    seen = λ j n h f. elim (Bool-cases (ltb j i)) [
      | inl lt ↦ inv.seen j n (ground arith) f
      | inr ge ↦
          let last : j ≡ i = ground arith in
          let same : some n ≡ some node =
            sym f ∙ ap (λ m. node_of ring ((idx + m) % ring_size ring)) last ∙ e in
          has_id_of node n taken same old
    ];
  }

  -- The nodes that the loop ends with: as many as were asked for, or those of a whole round.
  abbrev pub Collected : Answer (List Node) → Type 0
  Collected no_nodes = ⊥
  Collected panicked = ⊥
  Collected (found nodes) =
      Distinct nodes
      × (length nodes ≤ count)
      × OnRing ring nodes
      × ((nodes ≡ []) ⊎ (first_of nodes ≡ node_of ring idx))
      × ((length nodes ≡ count)
          ⊎ ((j : ℕ) (node : Node)
              → j < ring_size ring
              → node_of ring ((idx + j) % ring_size ring) ≡ some node
              → has_id node.id nodes ≡ true))

  begun_or_not :
      (i : ℕ) (taken : List Node) → Inv i taken → (taken ≡ []) ⊎ (first_of taken ≡ node_of ring idx)
  begun_or_not i taken inv = elim (Bool-cases (i == 0)) [
    | inl z ↦ inl (inv.start ((==_iff i 0).0 z))
    | inr p ↦ inr (inv.lead (ground arith))
  ]

  pub collect-Collected :
      (i left : ℕ) (taken : List Node)
      → IsRing ring
      → idx < ring_size ring
      → i + left ≡ ring_size ring
      → Inv i taken
      → Collected (collect ring idx count i left taken)
  unfolding collect
  collect-Collected i zero taken w small e inv = (
    inv.distinct,
    inv.few,
    inv.there,
    begun_or_not i taken inv,
    inr (λ j node h. inv.seen j node (omega arith)),
  )
  collect-Collected i (suc left) taken w small e inv =
      elim (Bool-cases (ltb (length taken) count)) [
        | inr full ↦
            rw (collect, full)
              (
                inv.distinct,
                inv.few,
                inv.there,
                begun_or_not i taken inv,
                inl (let p = inv.few in ground arith),
              )
        | inl fits ↦
            let at : ℕ = (idx + i) % ring_size ring in
            let (node, there, k) = node_of-IsRing ring at w (omega arith) in
            elim (Bool-cases (has_id node.id taken)) [
              | inl old ↦
                  rw (collect, fits, there, old)
                    (collect-Collected (i + 1) left taken w small (omega arith)
                      (skip-Inv i taken node inv there old))
              | inr new ↦
                  rw (collect, fits, there, new)
                    (collect-Collected (i + 1) left (taken ++ node ∷ []) w small (omega arith) (
                      take-Inv i taken node (key_at ring.sorted_keys at) small inv there k new
                        fits))
            ]
      ]

-- The number of replicas that is aimed at.
abbrev pub replicas_of : Ring → ℕ → ℕ
replicas_of ring count =
    let most = length ring.nodes / ring.virtual_nodes in if ltb most count then most else count

-- A whole round from any index visits every index.
round : (idx size i : ℕ) → idx < size → i < size → (j : ℕ) × (j < size) × ((idx + j) % size ≡ i)
round idx size i p q = elim (Bool-cases (ltb i idx)) [
  | inl before ↦ let b = ltb→lt i idx before in (i + size - idx, omega arith, grind (arith, b))
  | inr from ↦ let b : idx ≤ i = ground arith in (i - idx, omega arith, grind arith)
]

-- How a read of the replicas ends.
abbrev pub Replicas : Ring → String → ℕ → Answer (List Node) → Type 0
Replicas ring key count no_nodes = (k : ℕ) → node_at k ring.nodes ≡ none
Replicas ring key count panicked = ⊥
Replicas ring key count (found nodes) =
    Distinct nodes
    × (length nodes ≤ count)
    × OnRing ring nodes
    × ((nodes ≡ []) ⊎ (get_node ring key ≡ found (first_of nodes)))
    × ((length nodes ≡ replicas_of ring count)
        ⊎ ((k : ℕ) (node : Node) → node_at k ring.nodes ≡ some node → has_id node.id nodes ≡ true))

replicas :
    (ring : Ring) (key : String) (count i : ℕ)
    → IsRing ring
    → i < ring_size ring
    → get_node ring key ≡ found (node_of ring i)
    → (o : Answer (List Node)) → Collected ring i (replicas_of ring count) o
    → Replicas ring key count o
replicas ring key count i w l own no_nodes h = absurd h
replicas ring key count i w l own panicked h = absurd h
replicas ring key count i w l own (found nodes) (distinct, few, there, first, whole) = (
  distinct,
  ground (arith, few),
  there,
  elim first [ inl none_yet ↦ inl none_yet | inr lead ↦ inr (own ∙ ap found (sym lead)) ],
  elim whole [
    | inl full ↦ inl full
    | inr seen ↦ inr λ k node at.
        let (x, inside, e) = has-index ring.sorted_keys k (w.same k ∙ ap is_some at) in
        let (j, small, back) = round i (ring_size ring) x l inside in
        let (n, here, m) = node_of-IsRing ring x w inside in
        seen j node small
          (ap (node_of ring) back ∙ here ∙ sym m ∙ ap (λ y. node_at y ring.nodes) e ∙ at)
  ],
)

-- A read of the replicas does not panic. Its nodes are on the ring, differ from one another, are no
-- more than were asked for, and start with the one that the key belongs to. There are as many as
-- were asked for, or as the ring's size gives room for; where there are fewer, every node of the
-- ring is among them. It gives the error only where no node is in the ring.
pub get_nodes-Replicas :
    (ring : Ring) (key : String) (count : ℕ)
    → IsRing ring
    → Replicas ring key count (get_nodes ring key count)
unfolding get_nodes
get_nodes-Replicas ring key count w = elim (Bool-cases (ring_size ring == 0)) [
  | inl empty ↦ rw empty λ k.
      not_is_some (node_at k ring.nodes)
        (sym (w.same k) ∙ has-empty ring.sorted_keys k (ground arith))
  | inr some_left ↦
      let (i, e, l, own) = get_node-search_ring ring key w (ground arith) in
      let most = replicas_of ring count in
      rw (some_left, e)
        (replicas ring key count i w l own (collect ring i most 0 (ring_size ring) []) (
          collect-Collected ring i most 0 (ring_size ring) [] w l (omega arith) (record {
            distinct = tt;
            few = omega arith;
            there = tt;
            start = λ h. refl;
            begun = λ h. elim h [ ];
            lead = λ h. elim h [ ];
            seen = λ j node h. elim h [ ];
          })))
]
