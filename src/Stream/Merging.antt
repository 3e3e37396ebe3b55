-- ===== src/Stream/Merging.antt =====
-- Merging a peer's entries into a stream, and what keeps the index beside the list
-- (Add and MergeSnapshot of stream/entry.go).
use toll_mesh_store.Common.{
  ℕ, ◌+◌, ◌≡◌, refl, sym, ap, ◌∙◌, Bool-cases, inl, inr, true, false, List, [], ◌∷◌, ◌++◌, arith,
  if◌then◌else◌, str_eq, String, eq_iff, none, some, Map, lookup, insert, lookup-insert, is_some,
  place, sort,
}
use toll_mesh_store.Stream.{StreamEntry, Stream, union, merge_snapshot, entry_less, add}
use toll_mesh_store.Stream.Index.{
  find, Distinct, Indexed, find-append, IsValid, apply_retention-IsValid,
}

Distinct-append :
    (e : StreamEntry) (es : List StreamEntry)
    → find e.id es ≡ none
    → Distinct es
    → Distinct (es ++ e ∷ [])
unfolding find
Distinct-append e [] h d = (refl, tt)
Distinct-append e (x ∷ es) h d =
    ground (
      arith,
      Distinct-append e es,
      find-append x.id es (e ∷ []),
      eq_iff x.id e.id,
      eq_iff e.id x.id,
    )

Indexed-append :
    (e : StreamEntry) (es : List StreamEntry) (index : Map StreamEntry)
    → lookup e.id index ≡ none
    → Indexed es index
    → Indexed (es ++ e ∷ []) (insert e.id e index)
unfolding find
Indexed-append e es index fresh v = record {
  distinct = Distinct-append e es (sym (v.agrees e.id) ∙ fresh) v.distinct;
  agrees = λ id. ground (
    arith,
    find-append id es (e ∷ []),
    lookup-insert e.id id e index,
    v.agrees id,
    v.agrees e.id,
    fresh,
    eq_iff e.id id,
  );
}

Indexed-union :
    (es : List StreamEntry) (index : Map StreamEntry) (peers : List StreamEntry)
    → Indexed es index
    → Indexed (union es index peers).0 (union es index peers).1
unfolding union
Indexed-union es index [] v = v
Indexed-union es index (p ∷ rest) v = ground (
  arith,
  Indexed-union es index rest v,
  Indexed-union (es ++ p ∷ []) (insert p.id p index) rest,
  Indexed-append p es index,
  v,
)

-- Sorting keeps what is found under each id.
find-place :
    (id : String) (x : StreamEntry) (ys : List StreamEntry)
    → find x.id ys ≡ none
    → find id (place entry_less x ys) ≡ (if str_eq x.id id then some x else find id ys)
unfolding find place
find-place id x [] h = refl
find-place id x (y ∷ ys) h =
    ground (arith, find-place id x ys, eq_iff x.id id, eq_iff y.id id, eq_iff y.id x.id)

place-Distinct :
    (x : StreamEntry) (ys : List StreamEntry)
    → find x.id ys ≡ none
    → Distinct ys
    → Distinct (place entry_less x ys)
unfolding find place
place-Distinct x [] h d = (refl, tt)
place-Distinct x (y ∷ ys) h d =
    ground (arith, place-Distinct x ys, find-place y.id x ys, eq_iff x.id y.id, eq_iff y.id x.id)

find-sort :
    (es : List StreamEntry)
    → Distinct es
    → ((id : String) → find id (sort entry_less es) ≡ find id es) × Distinct (sort entry_less es)
unfolding find sort
find-sort [] d = (λ id. refl, tt)
find-sort (e ∷ rest) d =
    let (same, own) = find-sort rest d.1 in
    let absent = same e.id ∙ d.0 in
    (
      λ id.
          find-place id e (sort entry_less rest) absent
          ∙ ap (λ o. if str_eq e.id id then some e else o) (same id),
      place-Distinct e (sort entry_less rest) absent own,
    )

-- A merge leaves the index and the list in agreement: each entry is in the list once, under its own
-- id, and is found under that id.
pub merge_snapshot-IsValid :
    (s : Stream) (peers : List StreamEntry) (now : ℕ)
    → IsValid s
    → IsValid (merge_snapshot s peers now)
unfolding merge_snapshot
merge_snapshot-IsValid s peers now v =
    let u = union s.entries s.entry_index peers in
    let (same, own) = find-sort u.0 (Indexed-union s.entries s.entry_index peers v).distinct in
    let sorted : Stream = record s { entries = sort entry_less u.0; entry_index = u.1 } in
    elim (Bool-cases u.2) [
      | inl changed ↦ rw changed (
          apply_retention-IsValid now sorted (record {
            distinct = own;
            agrees =
                λ id. (Indexed-union s.entries s.entry_index peers v).agrees id ∙ sym (same id);
          }))
      | inr unchanged ↦ rw unchanged v
    ]

-- An entry that is added under an id the stream does not know leaves the index and the list in
-- agreement.
pub add-IsValid :
    (s : Stream) (fields : Map String) (now later : ℕ)
    → lookup (add s fields now later).1.id s.entry_index ≡ none
    → IsValid s
    → IsValid (add s fields now later).0
unfolding add
add-IsValid s fields now later fresh v =
    let entry = (add s fields now later).1 in
    apply_retention-IsValid later
      (record s {
        timestamp = now;
        last_sequence = s.last_sequence + 1;
        entries = s.entries ++ entry ∷ [];
        entry_index = insert entry.id entry s.entry_index;
      })
      (Indexed-append entry s.entries s.entry_index fresh v)

-- The index that the loop makes: an id that the stream knew keeps its entry, and another has the
-- first one that the peer sent.
pub union_lem :
    (id : String) (es : List StreamEntry) (index : Map StreamEntry) (peers : List StreamEntry)
    → lookup id (union es index peers).1
      ≡ elim (lookup id index) [ none ↦ find id peers | some e ↦ some e ]
unfolding union find
union_lem id es index [] = ground arith
union_lem id es index (p ∷ rest) = ground (
  arith,
  union_lem id es index rest,
  union_lem id (es ++ p ∷ []) (insert p.id p index) rest,
  lookup-insert p.id id p index,
  eq_iff p.id id,
)

-- Every entry of the list is known.
abbrev pub AllKnown : Map StreamEntry → List StreamEntry → Type 0
AllKnown index [] = Unit
AllKnown index (p ∷ rest) = (is_some (lookup p.id index) ≡ true) × AllKnown index rest

union-known :
    (es : List StreamEntry) (index : Map StreamEntry) (peers : List StreamEntry)
    → AllKnown index peers
    → (union es index peers).2 ≡ false
unfolding union
union-known es index [] k = refl
union-known es index (p ∷ rest) k = ground (arith, union-known es index rest k.1)

-- A snapshot with no entry that is new changes nothing, so that it does not matter how often one is
-- delivered.
pub merge_snapshot-known :
    (s : Stream) (peers : List StreamEntry) (now : ℕ)
    → AllKnown s.entry_index peers
    → merge_snapshot s peers now ≡ s
unfolding merge_snapshot
merge_snapshot-known s peers now k = rw (union-known s.entries s.entry_index peers k) refl
