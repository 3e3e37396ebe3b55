-- ===== src/SortedSet/Skip.antt =====
-- The operations of the skip list (sortedset/skiplist.go).
use toll_mesh_store.Common.{
  ℕ, zero, suc, ◌+◌, ◌-◌, Bool, true, false, ◌&&◌, ◌||◌, not, ◌==◌, ltb, leb, if◌then◌else◌, String,
  str_eq, str_ltb, Option, none, some, List, [], ◌∷◌, ◌++◌, length, get_elem?, replicate,
}
use toll_mesh_store.SortedSet.Nodes.{
  SkipListNode, SkipList, or_none, path_at, next, write_backward, walk, descend, link, widen, raise,
  unlink, lower, collect, members_of,
}

module _ {S : Type 0} (less : S → S → Bool) where
  -- Equality of scores: neither is less.
  abbrev pub equal_to : S → S → Bool
  equal_to a b = not (less a b) && not (less b a)

  unfoldable pub sorts_before : S → String → S → String → Bool
  sorts_before score_a member_a score_b member_b =
      if not (equal_to score_a score_b) then less score_a score_b else str_ltb member_a member_b

  abbrev pub is_node : String → S → SkipListNode S → Bool
  is_node member score n = str_eq n.member member && equal_to n.score score

  -- The descent to where a score and a member belong.
  unfoldable pub path_to : SkipList S → String → S → List (ℕ × ℕ)
  unfolding descend sorts_before
  path_to sl member score =
      descend sl.heap (λ n. sorts_before n.score n.member score member) sl.level 0 0

  -- The list with a new node of this level, after the node that the path ends at.
  unfoldable pub insert_at : SkipList S → String → S → ℕ → List (ℕ × ℕ) → SkipList S
  unfolding link widen raise next write_backward
  insert_at sl member score height path =
      let a = length sl.heap in
      let u = (path_at path 0).0 in
      let raised = raise sl.heap sl.length sl.level (height - sl.level) in
      let placed =
        raised
        ++ (record {
          member = member;
          score = score;
          forward = replicate height none;
          span = replicate height 0;
          backward = some u;
        })
          ∷ [] in
      let after = next raised u 0 in
      let backed = elim after as (λ p. List (SkipListNode S)) [
        | none ↦ placed
        | some (y, n) ↦ write_backward placed y (some a)
      ] in
      record sl {
        heap = widen (link backed path a 0 height) path height (sl.level - height);
        tail = elim after [ none ↦ some a | some p ↦ sl.tail ];
        level = if ltb sl.level height then height else sl.level;
        length = sl.length + 1;
      }

  unfoldable pub insert : SkipList S → String → S → ℕ → SkipList S
  unfolding path_to insert_at next
  insert sl member score height =
      let path = path_to sl member score in
      elim (next sl.heap (path_at path 0).0 0) [
        | none ↦ insert_at sl member score height path
        | some (y, n) ↦ if is_node member score n then sl else insert_at sl member score height path
      ]

  unfoldable pub delete_at : SkipList S → List (ℕ × ℕ) → ℕ → SkipListNode S → SkipList S
  unfolding unlink lower write_backward
  delete_at sl path a x =
      let freed = unlink sl.heap path a x 0 sl.level in
      let behind = or_none (get_elem? x.forward 0) in
      let heap = elim behind as (λ p. List (SkipListNode S)) [
        | none ↦ freed
        | some y ↦ write_backward freed y x.backward
      ] in
      record sl {
        heap = heap;
        tail = elim behind [ none ↦ x.backward | some y ↦ sl.tail ];
        level = lower heap sl.level;
        length = sl.length - 1;
      }

  unfoldable pub delete : SkipList S → String → S → SkipList S
  unfolding path_to delete_at next
  delete sl member score =
      let path = path_to sl member score in
      elim (next sl.heap (path_at path 0).0 0) [
        | none ↦ sl
        | some (a, x) ↦ if is_node member score x then delete_at sl path a x else sl
      ]

  -- The members of the lowest level from the first score that is not below `min`.
  unfoldable pub range : SkipList S → S → S → ℕ → List String
  unfolding descend collect members_of
  range sl min max limit =
      let start = (path_at (descend sl.heap (λ n. less n.score min) sl.level 0 0) 0).0 in
      members_of (
        collect sl.heap (λ n. not (less max n.score)) (λ n. not (less n.score min)) limit
          (length sl.heap) start)

  unfoldable pub count : SkipList S → S → S → ℕ
  unfolding range
  count sl min max = length (range sl min max (length sl.heap))

  -- The walk from the tail along the backward pointers.
  unfoldable pub collect_back : List (SkipListNode S) → S → S → ℕ → ℕ → Option ℕ → List String
  collect_back heap min max limit zero p = []
  collect_back heap min max limit (suc fuel) none = []
  collect_back heap min max limit (suc fuel) (some x) = elim (get_elem? heap x) [
    | none ↦ []
    | some n ↦ elim (x == 0 || limit == 0) [
      | true ↦ []
      | false ↦ elim (less max n.score) [
        | true ↦ collect_back heap min max limit fuel n.backward
        | false ↦ elim (less n.score min) [
          | true ↦ []
          | false ↦ n.member ∷ collect_back heap min max (limit - 1) fuel n.backward
        ]
      ]
    ]
  ]

  unfoldable pub range_desc : SkipList S → S → S → ℕ → List String
  unfolding collect_back
  range_desc sl min max limit = collect_back sl.heap min max limit (length sl.heap) sl.tail

  unfoldable pub get_all : SkipList S → List String
  unfolding collect members_of
  get_all sl =
      members_of (collect sl.heap (λ n. true) (λ n. true) (length sl.heap) (length sl.heap) 0)

  unfoldable pub slice : ℕ → ℕ → ℕ → List String → List String
  slice i start stop [] = []
  slice i start stop (m ∷ rest) =
      let more = slice (i + 1) start stop rest in
      if leb i stop then (if leb start i then m ∷ more else more) else []

  unfoldable pub range_by_rank : SkipList S → ℕ → ℕ → List String
  unfolding get_all slice
  range_by_rank sl start stop = slice 0 start stop (get_all sl)

  -- The descent of `Rank`: it stops at the first level whose walk ends at the member.
  unfoldable pub rank_from : List (SkipListNode S) → String → S → ℕ → ℕ → ℕ → Option ℕ
  unfolding walk
  rank_from heap member score zero x r = none
  rank_from heap member score (suc i) x r =
      let (y, s) =
        walk heap
          (λ n. less n.score score || (equal_to n.score score && not (str_ltb member n.member))) i
          (length heap) x r in
      let deeper = rank_from heap member score i y s in
      let here = elim (get_elem? heap y) as (λ o. Bool) [
        | none ↦ false
        | some n ↦ not (y == 0) && is_node member score n
      ] in
      if here then some (s - 1) else deeper

  unfoldable pub rank : SkipList S → String → S → Option ℕ
  unfolding rank_from
  rank sl member score = rank_from sl.heap member score sl.level 0 0
