-- ===== src/Stream/Range.antt =====
-- Reading a part of a stream (Range of stream/entry.go).
use toll_mesh_store.Common.{
  ℕ, zero, suc, ◌-◌, ◌&&◌, not, String, str_eq, lookup, Option, none, some, List, [], ◌∷◌, length,
  get_elem?, if◌then◌else◌,
}
use toll_mesh_store.Stream.{StreamEntry, Stream}

-- The position of the first entry with the id.
unfoldable pub position : String → List StreamEntry → Option ℕ
position id [] = none
position id (e ∷ rest) =
    let later = position id rest in
    if str_eq e.id id then some 0 else elim later [ none ↦ none | some i ↦ some (suc i) ]

-- An end of the range: `other` unless the id is given, is known and is found.
unfoldable pub bound : Stream → String → String → (ℕ → ℕ) → ℕ → ℕ
unfolding position
bound s id whole shift other =
    if not (str_eq id whole) && not (str_eq id "")
    then elim (lookup id s.entry_index) [
      | none ↦ other
      | some e ↦ elim (position e.id s.entries) [ none ↦ other | some i ↦ shift i ]
    ]
    else other

-- The loop of `Range`: the position, how many of them are left up to `endIdx`, and how many
-- entries may still be taken.
unfoldable pub collect : List StreamEntry → ℕ → ℕ → ℕ → List StreamEntry
collect entries i zero room = []
collect entries i (suc left) zero = []
collect entries i (suc left) (suc room) = elim (get_elem? entries i) [
  | none ↦ collect entries (suc i) left (suc room)
  | some e ↦ e ∷ collect entries (suc i) left room
]

-- `stop` is one past `endIdx`, which is -1 on an empty stream.
unfoldable pub range : Stream → String → String → ℕ → List StreamEntry
unfolding bound collect
range s start_id end_id limit =
    let start = bound s start_id "0" (λ i. suc i) 0 in
    let stop = bound s end_id "-" (λ i. suc i) (length s.entries) in
    collect s.entries start (stop - start) limit
