-- ===== src/Stream/Index.antt =====
-- The index of a stream by id, beside its list (stream/entry.go).
use toll_mesh_store.Common.{
  ℕ, zero, suc, ◌-◌, ◌≡◌, refl, subst, Bool-cases, inl, inr, ltb, List, [], ◌∷◌, ◌++◌, arith,
  if◌then◌else◌, str_eq, String, eq_iff, Option, none, some, Map, lookup, erase, lookup-erase, take,
  drop, length,
}
use toll_mesh_store.Stream.{
  StreamEntry, Stream, entry_size, total_size, young, young_index, within_size, within_size_index,
  erase_ids, drop_old, drop_excess, drop_oversize, apply_retention,
}

-- The first entry with the id.
unfoldable pub find : String → List StreamEntry → Option StreamEntry
find id [] = none
find id (e ∷ rest) = if str_eq e.id id then some e else find id rest

-- Each entry has its own id.
abbrev pub Distinct : List StreamEntry → Type 0
Distinct [] = Unit
Distinct (e ∷ rest) = (find e.id rest ≡ none) × Distinct rest

-- The index knows an entry exactly if the list has it.
pub record Indexed (es : List StreamEntry) (index : Map StreamEntry) : Type 0 where
  pub distinct : Distinct es
  pub agrees : (id : String) → lookup id index ≡ find id es

-- Entries that are removed from the front.
Indexed-tail :
    (e : StreamEntry) (rest : List StreamEntry) (index : Map StreamEntry)
    → Indexed (e ∷ rest) index
    → Indexed rest (erase e.id index)
unfolding find
Indexed-tail e rest index v = record {
  distinct = v.distinct.1;
  agrees =
      λ id. ground (arith, lookup-erase e.id id index, v.agrees id, eq_iff e.id id, v.distinct.0);
}

Indexed-drop :
    (k : ℕ) (es : List StreamEntry) (index : Map StreamEntry)
    → Indexed es index
    → Indexed (drop k es) (erase_ids (take k es) index)
unfolding erase_ids
Indexed-drop zero es index v = v
Indexed-drop (suc k) [] index v = v
Indexed-drop (suc k) (e ∷ rest) index v =
    Indexed-drop k rest (erase e.id index) (Indexed-tail e rest index v)

Indexed-within_size :
    (max_size size : ℕ) (es : List StreamEntry) (index : Map StreamEntry)
    → Indexed es index
    → Indexed (within_size max_size size es) (within_size_index max_size size es index)
unfolding within_size within_size_index
Indexed-within_size max_size size [] index v = v
Indexed-within_size max_size size (e ∷ rest) index v = ground (
  arith,
  Indexed-within_size max_size (size - entry_size e) rest (erase e.id index)
      (Indexed-tail e rest index v),
  v,
)

-- The age limit removes from anywhere: what the loop has passed is in front.
pub find-append :
    (id : String) (xs ys : List StreamEntry)
    → find id (xs ++ ys) ≡ elim (find id xs) [ none ↦ find id ys | some e ↦ some e ]
unfolding find
find-append id [] ys = refl
find-append id (x ∷ xs) ys = ground (arith, find-append id xs ys)

find-young :
    (id : String) (now max_age : ℕ) (es : List StreamEntry)
    → find id es ≡ none
    → find id (young now max_age es) ≡ none
unfolding find young
find-young id now max_age [] h = refl
find-young id now max_age (e ∷ rest) h = ground (arith, find-young id now max_age rest)

young-Distinct :
    (now max_age : ℕ) (es : List StreamEntry) → Distinct es → Distinct (young now max_age es)
unfolding young
young-Distinct now max_age [] d = tt
young-Distinct now max_age (e ∷ rest) d =
    ground (arith, find-young e.id now max_age rest d.0, young-Distinct now max_age rest d.1)

-- The loop leaves what it finds in the index of an entry that no entry left to pass has.
young_index-other :
    (id : String) (now max_age : ℕ) (es : List StreamEntry) (index : Map StreamEntry)
    → find id es ≡ none
    → lookup id (young_index now max_age es index) ≡ lookup id index
unfolding find young_index
young_index-other id now max_age [] index h = refl
young_index-other id now max_age (e ∷ rest) index h = ground (
  arith,
  young_index-other id now max_age rest index,
  young_index-other id now max_age rest (erase e.id index),
  lookup-erase e.id id index,
)

young_index-known :
    (id : String) (now max_age : ℕ) (es : List StreamEntry) (index : Map StreamEntry)
    → Distinct es
    → lookup id index ≡ find id es
    → lookup id (young_index now max_age es index) ≡ find id (young now max_age es)
unfolding find young_index young
young_index-known id now max_age [] index d h = h
young_index-known id now max_age (e ∷ rest) index d h = elim (Bool-cases (str_eq e.id id)) [
  | inl hit ↦
      let absent : find id rest ≡ none =
        subst (λ i. find i rest ≡ none) ((eq_iff e.id id).0 hit) d.0 in
      ground (
        arith,
        young_index-other id now max_age rest index absent,
        young_index-other id now max_age rest (erase e.id index) absent,
        find-young id now max_age rest absent,
        lookup-erase e.id id index,
        hit,
        h,
      )
  | inr miss ↦ ground (
    arith,
    young_index-known id now max_age rest index d.1,
    young_index-known id now max_age rest (erase e.id index) d.1,
    lookup-erase e.id id index,
    miss,
    h,
  )
]

Indexed-young :
    (now max_age : ℕ) (es : List StreamEntry) (index : Map StreamEntry)
    → Indexed es index
    → Indexed (young now max_age es) (young_index now max_age es index)
Indexed-young now max_age es index v = record {
  distinct = young-Distinct now max_age es v.distinct;
  agrees = λ id. young_index-known id now max_age es index v.distinct (v.agrees id);
}

abbrev pub IsValid : Stream → Type 0
IsValid s = Indexed s.entries s.entry_index

drop_excess-IsValid : (s : Stream) → IsValid s → IsValid (drop_excess s)
unfolding drop_excess
drop_excess-IsValid s v =
    let n = length s.entries - s.retention_policy.max_entries in
    elim (Bool-cases (ltb s.retention_policy.max_entries (length s.entries))) [
      | inl over ↦ rw over (Indexed-drop n s.entries s.entry_index v)
      | inr fits ↦ rw fits v
    ]

pub apply_retention-IsValid : (now : ℕ) (s : Stream) → IsValid s → IsValid (apply_retention now s)
unfolding apply_retention drop_oversize drop_old
apply_retention-IsValid now s v =
    let old = drop_excess (drop_old now s) in
    Indexed-within_size old.retention_policy.max_size (total_size old.entries) old.entries
      old.entry_index
      (drop_excess-IsValid (drop_old now s)
        (Indexed-young now s.retention_policy.max_age s.entries s.entry_index v))
