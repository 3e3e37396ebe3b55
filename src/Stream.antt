-- ===== src/Stream.antt =====
-- An append-only stream of events and its retention (stream/entry.go).
--
-- An entry is not changed after it is appended, so the pointers in `Entries` and in `EntryIndex` are
-- the entries themselves. Times are milliseconds.
pub mod Index
pub mod Retention
pub mod Range
pub mod Reading
pub mod Merging
pub mod Order
pub mod Groups
pub mod Tests
use toll_mesh_store.Common.{
  ℕ, ◌+◌, ◌-◌, Bool, not, ◌==◌, ltb, leb, if◌then◌else◌, String, str_ltb, len, ◌⧺◌, decimal, Map,
  lookup, insert, erase, is_some, Option, none, List, ◌∷◌, ◌++◌, length, take, drop, get_elem?,
  true, false, sort, [],
}

pub record StreamEntry : Type 0 where
  pub id : String
  pub timestamp : ℕ
  pub fields : Map String
  pub node : String
  pub sequence : ℕ
  pub vector_clock : Map ℕ

pub record RetentionPolicy : Type 0 where
  pub max_age : ℕ
  pub max_size : ℕ
  pub max_entries : ℕ

pub record Stream : Type 0 where
  pub name : String
  pub entries : List StreamEntry
  pub entry_index : Map StreamEntry
  pub last_sequence : ℕ
  pub timestamp : ℕ
  pub node_id : String
  pub retention_policy : RetentionPolicy

unfoldable pub new_stream : String → String → ℕ → Stream
new_stream name node_id now = record {
  name = name;
  entries = [];
  entry_index = [];
  last_sequence = 0;
  timestamp = now;
  node_id = node_id;
  retention_policy = record {
    max_age = 86_400_000;
    max_size = 1_073_741_824;
    max_entries = 1_000_000;
  };
}

-- The first loop of `applyRetention`: the entries that are young enough.
unfoldable pub young : ℕ → ℕ → List StreamEntry → List StreamEntry
young now max_age [] = []
young now max_age (e ∷ rest) =
    let kept = young now max_age rest in if leb (now - e.timestamp) max_age then e ∷ kept else kept

-- What that loop leaves of the index.
unfoldable pub young_index : ℕ → ℕ → List StreamEntry → Map StreamEntry → Map StreamEntry
young_index now max_age [] index = index
young_index now max_age (e ∷ rest) index =
    young_index now max_age rest
      (if leb (now - e.timestamp) max_age then index else erase e.id index)

unfoldable pub erase_ids : List StreamEntry → Map StreamEntry → Map StreamEntry
erase_ids [] index = index
erase_ids (e ∷ rest) index = erase_ids rest (erase e.id index)

unfoldable pub fields_size : Map String → ℕ
fields_size [] = 0
fields_size ((k, v) ∷ rest) = len k + len v + fields_size rest

unfoldable pub entry_size : StreamEntry → ℕ
unfolding fields_size
entry_size e = len e.id + len e.node + fields_size e.fields

unfoldable pub total_size : List StreamEntry → ℕ
total_size [] = 0
total_size (e ∷ rest) = entry_size e + total_size rest

-- The last loop: the entries from the first one at which the bytes left are within the limit.
unfoldable pub within_size : ℕ → ℕ → List StreamEntry → List StreamEntry
within_size max_size size [] = []
within_size max_size size (e ∷ rest) =
    let trimmed = within_size max_size (size - entry_size e) rest in
    if ltb max_size size then trimmed else e ∷ rest

unfoldable pub within_size_index : ℕ → ℕ → List StreamEntry → Map StreamEntry → Map StreamEntry
within_size_index max_size size [] index = index
within_size_index max_size size (e ∷ rest) index =
    let trimmed = within_size_index max_size (size - entry_size e) rest (erase e.id index) in
    if ltb max_size size then trimmed else index

unfoldable pub drop_old : ℕ → Stream → Stream
unfolding young young_index
drop_old now s =
    let max_age = s.retention_policy.max_age in
    record s {
      entries = young now max_age s.entries;
      entry_index = young_index now max_age s.entries s.entry_index;
    }

unfoldable pub drop_excess : Stream → Stream
unfolding erase_ids
drop_excess s =
    let to_remove = length s.entries - s.retention_policy.max_entries in
    if ltb s.retention_policy.max_entries (length s.entries)
    then record s {
      entries = drop to_remove s.entries;
      entry_index = erase_ids (take to_remove s.entries) s.entry_index;
    }
    else s

unfoldable pub drop_oversize : Stream → Stream
unfolding total_size within_size within_size_index
drop_oversize s =
    let size = total_size s.entries in
    let max_size = s.retention_policy.max_size in
    record s {
      entries = within_size max_size size s.entries;
      entry_index = within_size_index max_size size s.entries s.entry_index;
    }

unfoldable pub apply_retention : ℕ → Stream → Stream
unfolding drop_old drop_excess drop_oversize
apply_retention now s = drop_oversize (drop_excess (drop_old now s))

unfoldable pub copy_fields : Map String → Map String → Map String
copy_fields result [] = result
copy_fields result ((k, v) ∷ rest) = copy_fields (insert k v result) rest

-- `later` is the clock's reading when the retention starts.
unfoldable pub add : Stream → Map String → ℕ → ℕ → Stream × StreamEntry
unfolding copy_fields apply_retention
add s fields now later =
    let seq = s.last_sequence + 1 in
    let entry_id = decimal now ⧺ "-" ⧺ decimal seq ⧺ "-" ⧺ s.node_id in
    let entry : StreamEntry = record {
      id = entry_id;
      timestamp = now;
      fields = copy_fields [] fields;
      node = s.node_id;
      sequence = seq;
      vector_clock = [];
    } in
    (
      apply_retention later (record s {
        timestamp = now;
        last_sequence = seq;
        entries = s.entries ++ entry ∷ [];
        entry_index = insert entry_id entry s.entry_index;
      }),
      entry,
    )

unfoldable pub get : Stream → String → Option StreamEntry
get s entry_id = lookup entry_id s.entry_index

unfoldable pub snapshot : Stream → List StreamEntry
snapshot s = s.entries

-- The loop of `MergeSnapshot`, which says also whether it added anything.
unfoldable pub union :
    List StreamEntry
    → Map StreamEntry
    → List StreamEntry
    → List StreamEntry × Map StreamEntry × Bool
union entries index [] = (entries, index, false)
union entries index (e ∷ rest) =
    let known = is_some (lookup e.id index) in
    let (entries', index', changed) =
      union (if known then entries else entries ++ e ∷ [])
        (if known then index else insert e.id e index) rest in
    (entries', index', if known then changed else true)

unfoldable pub entry_less : StreamEntry → StreamEntry → Bool
entry_less a b =
    if not (a.timestamp == b.timestamp)
    then ltb a.timestamp b.timestamp
    else if not (a.sequence == b.sequence)
    then ltb a.sequence b.sequence
    else str_ltb a.node b.node

unfoldable pub merge_snapshot : Stream → List StreamEntry → ℕ → Stream
unfolding union entry_less apply_retention
merge_snapshot s peers now =
    let (entries, index, changed) = union s.entries s.entry_index peers in
    if changed
    then apply_retention now (record s { entries = sort entry_less entries; entry_index = index })
    else s

unfoldable pub stream_len : Stream → ℕ
stream_len s = length s.entries

unfoldable pub get_first : Stream → Option StreamEntry
get_first s = get_elem? s.entries 0

unfoldable pub get_last : Stream → Option StreamEntry
get_last s = if length s.entries == 0 then none else get_elem? s.entries (length s.entries - 1)

unfoldable pub trim : Stream → ℕ → Stream
unfolding apply_retention
trim s now = apply_retention now s
