-- ===== src/SortedSet/Nodes.antt =====
-- The nodes of the skip list and the loops over its levels (sortedset/skiplist.go).
--
-- Nodes stand in a heap under addresses, the header at 0; a nil pointer is none. The loops that follow
-- pointers at one level take one step for a node at most, so the size of the heap is fuel enough on a
-- list without cycles. The level of a new node, which the code draws at random, is an argument.
use toll_mesh_store.Common.{
  ℕ, zero, suc, ◌+◌, ◌-◌, Bool, true, false, ◌&&◌, ◌==◌, ltb, if◌then◌else◌, String, Option, none,
  some, List, [], ◌∷◌, ◌++◌, length, set, get_elem?, replicate,
}

pub record SkipListNode (S : Type 0) : Type 0 where
  pub member : String
  pub score : S
  pub forward : List (Option ℕ)
  pub span : List ℕ
  pub backward : Option ℕ

pub record SkipList (S : Type 0) : Type 0 where
  pub heap : List (SkipListNode S)
  pub tail : Option ℕ
  pub level : ℕ
  pub length : ℕ

abbrev pub max_level : ℕ
max_level = 16

unfoldable pub new_skip_list : {S : Type 0} → S → SkipList S
new_skip_list lowest = record {
  heap =
      (record {
        member = "";
        score = lowest;
        forward = replicate max_level none;
        span = replicate max_level 0;
        backward = none;
      })
      ∷ [];
  tail = none;
  level = 1;
  length = 0;
}

abbrev pub or_none : Option (Option ℕ) → Option ℕ
or_none none = none
or_none (some p) = p

abbrev pub or_zero : Option ℕ → ℕ
or_zero none = 0
or_zero (some n) = n

abbrev pub or_header : Option (ℕ × ℕ) → ℕ × ℕ
or_header none = (0, 0)
or_header (some p) = p

abbrev pub path_at : List (ℕ × ℕ) → ℕ → ℕ × ℕ
path_at path i = or_header (get_elem? path i)

module _ {S : Type 0} where
  -- `x.Forward[i]` and the node that is there.
  unfoldable pub next : List (SkipListNode S) → ℕ → ℕ → Option (ℕ × SkipListNode S)
  next heap x i = elim (get_elem? heap x) [
    | none ↦ none
    | some n ↦ elim (or_none (get_elem? n.forward i)) [
      | none ↦ none
      | some y ↦ elim (get_elem? heap y) [ none ↦ none | some m ↦ some (y, m) ]
    ]
  ]

  unfoldable pub span_at : List (SkipListNode S) → ℕ → ℕ → ℕ
  span_at heap x i = elim (get_elem? heap x) [ none ↦ 0 | some n ↦ or_zero (get_elem? n.span i) ]

  unfoldable pub write_forward : List (SkipListNode S) → ℕ → ℕ → Option ℕ → List (SkipListNode S)
  write_forward heap x i p = elim (get_elem? heap x) [
    | none ↦ heap
    | some n ↦ set heap x (record n { forward = set n.forward i p })
  ]

  unfoldable pub write_span : List (SkipListNode S) → ℕ → ℕ → ℕ → List (SkipListNode S)
  write_span heap x i s = elim (get_elem? heap x) [
    | none ↦ heap
    | some n ↦ set heap x (record n { span = set n.span i s })
  ]

  unfoldable pub write_backward : List (SkipListNode S) → ℕ → Option ℕ → List (SkipListNode S)
  write_backward heap x p = elim (get_elem? heap x) [
    | none ↦ heap
    | some n ↦ set heap x (record n { backward = p })
  ]

  -- The steps at one level, past each node that is `before`: where they end, and the rank there.
  unfoldable pub walk : List (SkipListNode S) → (SkipListNode S → Bool) → ℕ → ℕ → ℕ → ℕ → ℕ × ℕ
  unfolding next span_at
  walk heap before i zero x r = (x, r)
  walk heap before i (suc fuel) x r = elim (next heap x i) [
    | none ↦ (x, r)
    | some (y, n) ↦ elim (before n) [
      | true ↦ walk heap before i fuel y (r + span_at heap x i)
      | false ↦ (x, r)
    ]
  ]

  -- The descent from the level below `i` to the lowest: `update` and `rank`, by level.
  unfoldable pub descend :
      List (SkipListNode S) → (SkipListNode S → Bool) → ℕ → ℕ → ℕ → List (ℕ × ℕ)
  unfolding walk
  descend heap before zero x r = []
  descend heap before (suc i) x r =
      let (y, s) = walk heap before i (length heap) x r in descend heap before i y s ++ (y, s) ∷ []

  -- The pointers and spans of the levels from `i` on, of which the new node at `a` has `left`.
  unfoldable pub link : List (SkipListNode S) → List (ℕ × ℕ) → ℕ → ℕ → ℕ → List (SkipListNode S)
  unfolding next span_at write_forward write_span
  link heap path a i zero = heap
  link heap path a i (suc left) =
      let (u, r) = path_at path i in
      let behind = (path_at path 0).1 - r in
      let s = span_at heap u i in
      let old = elim (get_elem? heap u) as (λ x. Option ℕ) [
        | none ↦ none
        | some n ↦ or_none (get_elem? n.forward i)
      ] in
      let pointed = write_forward (write_forward heap a i old) u i (some a) in
      link (write_span (write_span pointed a i (s - behind)) u i (behind + 1)) path a (i + 1) left

  -- The levels above the new node's.
  unfoldable pub widen : List (SkipListNode S) → List (ℕ × ℕ) → ℕ → ℕ → List (SkipListNode S)
  unfolding span_at write_span
  widen heap path i zero = heap
  widen heap path i (suc left) =
      let u = (path_at path i).0 in
      widen (write_span heap u i (span_at heap u i + 1)) path (i + 1) left

  -- The header's span at the levels that are new.
  unfoldable pub raise : List (SkipListNode S) → ℕ → ℕ → ℕ → List (SkipListNode S)
  unfolding write_span
  raise heap size i zero = heap
  raise heap size i (suc left) = raise (write_span heap 0 i size) size (i + 1) left

  -- The removal of the node at `a` from the levels from `i` on.
  unfoldable pub unlink :
      List (SkipListNode S) → List (ℕ × ℕ) → ℕ → SkipListNode S → ℕ → ℕ → List (SkipListNode S)
  unfolding next span_at write_forward write_span
  unlink heap path a x i zero = heap
  unlink heap path a x i (suc left) =
      let u = (path_at path i).0 in
      let s = span_at heap u i in
      let points = elim (next heap u i) as (λ p. Bool) [ none ↦ false | some (y, n) ↦ y == a ] in
      unlink
        (if points
          then write_forward (write_span heap u i (s + or_zero (get_elem? x.span i) - 1)) u i
              (or_none (get_elem? x.forward i))
          else write_span heap u i (s - 1))
        path a x (i + 1) left

  -- The level without the empty ones at the top.
  unfoldable pub lower : List (SkipListNode S) → ℕ → ℕ
  unfolding next
  lower heap zero = zero
  lower heap (suc n) =
      let below = lower heap n in
      elim (next heap 0 n) [ none ↦ (if ltb 0 n then below else suc n) | some p ↦ suc n ]

  unfoldable pub collect :
      List (SkipListNode S)
      → (SkipListNode S → Bool)
      → (SkipListNode S → Bool)
      → ℕ
      → ℕ
      → ℕ
      → List (SkipListNode S)
  unfolding next
  collect heap stays takes limit zero x = []
  collect heap stays takes limit (suc fuel) x = elim (next heap x 0) [
    | none ↦ []
    | some (y, n) ↦ elim (stays n && ltb 0 limit) [
      | false ↦ []
      | true ↦ elim (takes n) [
        | true ↦ n ∷ collect heap stays takes (limit - 1) fuel y
        | false ↦ collect heap stays takes limit fuel y
      ]
    ]
  ]

  -- The names of nodes.
  unfoldable pub members_of : List (SkipListNode S) → List String
  members_of [] = []
  members_of (n ∷ rest) = n.member ∷ members_of rest
