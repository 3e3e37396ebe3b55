-- ===== src/Stream/Reading.antt =====
-- Reading a stream page by page (Range of stream/entry.go).
use toll_mesh_store.Common.{
  ℕ, zero, suc, ◌+◌, ◌-◌, ◌≡◌, ◌≢◌, refl, ap, ◌∙◌, List, [], ◌∷◌, ◌++◌, arith, length, drop, take,
  String, eq_iff, none, some, lookup, length-append,
}
use toll_mesh_store.Stream.{StreamEntry, Stream}
use toll_mesh_store.Stream.Range.{position, bound, collect, range}

collect-shift :
    (e : StreamEntry) (rest : List StreamEntry) (i left room : ℕ)
    → collect (e ∷ rest) (suc i) left room ≡ collect rest i left room
unfolding collect
collect-shift e rest i zero room = refl
collect-shift e rest i (suc left) zero = refl
collect-shift e rest i (suc left) (suc room) =
    ground
      (arith, collect-shift e rest (suc i) left (suc room), collect-shift e rest (suc i) left room)

collect-all :
    (es : List StreamEntry) (left room : ℕ)
    → left ≡ length es
    → collect es 0 left room ≡ take room es
unfolding collect
collect-all [] zero zero h = refl
collect-all [] zero (suc room) h = refl
collect-all [] (suc left) room h = ground arith
collect-all (e ∷ rest) zero room h = ground arith
collect-all (e ∷ rest) (suc left) zero h = refl
collect-all (e ∷ rest) (suc left) (suc room) h =
    ap (λ tail. e ∷ tail)
      (collect-shift e rest 0 left room ∙ collect-all rest left room (omega arith))

-- From a position on, the loop takes as many entries as there is room for.
collect-drop :
    (es : List StreamEntry) (i left room : ℕ)
    → i + left ≡ length es
    → collect es i left room ≡ take room (drop i es)
collect-drop es zero left room h = collect-all es left room (omega arith)
collect-drop [] (suc i) left room h = ground arith
collect-drop (e ∷ rest) (suc i) left room h =
    collect-shift e rest i left room ∙ collect-drop rest i left room (omega arith)

drop-append :
    (xs ys : List StreamEntry) (e : StreamEntry) → drop (suc (length xs)) (xs ++ e ∷ ys) ≡ ys
drop-append [] ys e = refl
drop-append (x ∷ xs) ys e = drop-append xs ys e

position-found :
    (xs ys : List StreamEntry) (e : StreamEntry)
    → position e.id xs ≡ none
    → position e.id (xs ++ e ∷ ys) ≡ some (length xs)
unfolding position
position-found [] ys e h = ground (arith, eq_iff e.id e.id)
position-found (x ∷ xs) ys e h = ground (arith, eq_iff x.id e.id, position-found xs ys e)

-- The position that a known id stands for.
bound-found :
    (s : Stream) (xs ys : List StreamEntry) (e : StreamEntry) (whole : String) (other : ℕ)
    → s.entries ≡ xs ++ e ∷ ys
    → position e.id xs ≡ none
    → lookup e.id s.entry_index ≡ some e
    → e.id ≢ whole
    → e.id ≢ ""
    → bound s e.id whole (λ i. suc i) other ≡ suc (length xs)
unfolding bound
bound-found s xs ys e whole other h first known not_whole not_empty =
    ground (arith, h, known, position-found xs ys e first, eq_iff e.id whole, eq_iff e.id "")

bound-whole :
    (s : Stream) (whole : String) (other : ℕ) → bound s whole whole (λ i. suc i) other ≡ other
unfolding bound
bound-whole s whole other = ground (arith, eq_iff whole whole)

-- A reader that passes the id of the last entry it saw gets the entries after that one, up to its
-- limit: none is skipped and none comes again. The stream knows the id, no earlier entry has it, and it is not one of the two
-- texts that stand for the beginning.
pub range-after :
    (s : Stream) (xs ys : List StreamEntry) (e : StreamEntry) (limit : ℕ)
    → s.entries ≡ xs ++ e ∷ ys
    → position e.id xs ≡ none
    → lookup e.id s.entry_index ≡ some e
    → e.id ≢ "0"
    → e.id ≢ ""
    → range s e.id "-" limit ≡ take limit ys
unfolding range
range-after s xs ys e limit h first known not_0 not_empty =
    let count = length-append xs (e ∷ ys) in
    let full : length s.entries ≡ length xs + suc (length ys) = ap length h ∙ count in
    rw
      (
        bound-found s xs ys e "0" 0 h first known not_0 not_empty,
        bound-whole s "-" (length s.entries),
      )
      (collect-drop s.entries (suc (length xs)) (length s.entries - suc (length xs)) limit
          (omega arith)
        ∙ ap (λ es. take limit (drop (suc (length xs)) es)) h
        ∙ ap (take limit) (drop-append xs ys e))
