-- ===== src/Stream/Groups.antt =====
-- Consumer groups of a stream (stream/consumer_group.go).
--
-- A member is shared by pointer between `Members` and the callers; only the methods of the group
-- write to it, so the map holds the member itself. A map that a method ranges over is taken in the
-- order of the list; Go may take any. Times are milliseconds. `triggerRebalance` does nothing.
pub mod Members
pub mod Assignment
use toll_mesh_store.Common.{
  ℕ, ◌+◌, ◌-◌, Bool, ◌||◌, not, ◌==◌, ltb, leb, if◌then◌else◌, String, str_eq, Map, lookup, insert,
  erase, is_some, Option, none, some, List, ◌∷◌, ◌++◌, keep, length, [],
}
use toll_mesh_store.Stream.{StreamEntry}

pub record ConsumerGroupMember : Type 0 where
  pub id : String
  pub group : String
  pub stream : String
  pub last_offset : String
  pub joined_at : ℕ
  pub last_heartbeat : ℕ
  pub node : String
  pub vector_clock : Map ℕ

pub record ConsumerGroupPending : Type 0 where
  pub entry_id : String
  pub consumer_id : String
  pub timestamp : ℕ

pub record ConsumerGroup : Type 0 where
  pub name : String
  pub stream : String
  pub members : Map ConsumerGroupMember
  pub offsets : Map String
  pub pending_log : List ConsumerGroupPending
  pub created_at : ℕ
  pub last_modified : ℕ
  pub node_id : String
  pub max_retention : ℕ
  pub timestamp : ℕ

pub data Error : Type 0 where
  already_exists : String → Error
  not_found : String → Error

unfoldable pub new_consumer_group : String → String → String → ℕ → ConsumerGroup
new_consumer_group name stream node_id now = record {
  name = name;
  stream = stream;
  members = [];
  offsets = [];
  pending_log = [];
  created_at = now;
  last_modified = now;
  node_id = node_id;
  max_retention = 86_400_000;
  timestamp = 0;
}

-- `none` is success. The readings of the clock in one call are one number.
unfoldable pub add_consumer : ConsumerGroup → String → String → ℕ → ConsumerGroup × Option Error
add_consumer cg consumer_id node_id now =
    let member : ConsumerGroupMember = record {
      id = consumer_id;
      group = cg.name;
      stream = cg.stream;
      last_offset = "";
      joined_at = now;
      last_heartbeat = now;
      node = node_id;
      vector_clock = [];
    } in
    if is_some (lookup consumer_id cg.members) then (cg, some (already_exists consumer_id)) else (
      record cg {
        timestamp = cg.timestamp + 1;
        members = insert consumer_id member cg.members;
        offsets = insert consumer_id "0" cg.offsets;
        last_modified = now;
      },
      none,
    )

unfoldable pub remove_consumer : ConsumerGroup → String → ℕ → ConsumerGroup × Option Error
remove_consumer cg consumer_id now =
    if not (is_some (lookup consumer_id cg.members)) then (cg, some (not_found consumer_id)) else (
      record cg {
        members = erase consumer_id cg.members;
        offsets = erase consumer_id cg.offsets;
        timestamp = cg.timestamp + 1;
        last_modified = now;
      },
      none,
    )

-- Whether `UpdateOffset` leaves an entry of the pending log.
unfoldable pub still_pending : String → String → ConsumerGroupPending → Bool
still_pending consumer_id entry_id p =
    not (str_eq p.entry_id entry_id) || not (str_eq p.consumer_id consumer_id)

unfoldable pub update_offset : ConsumerGroup → String → String → ℕ → ConsumerGroup × Option Error
unfolding still_pending keep
update_offset cg consumer_id entry_id now = elim (lookup consumer_id cg.members) [
  | none ↦ (cg, some (not_found consumer_id))
  | some member ↦ (
    record cg {
      members =
          insert consumer_id (record member { last_offset = entry_id; last_heartbeat = now })
            cg.members;
      offsets = insert consumer_id entry_id cg.offsets;
      pending_log = keep (still_pending consumer_id entry_id) cg.pending_log;
      timestamp = cg.timestamp + 1;
      last_modified = now;
    },
    none,
  )
]

unfoldable pub get_consumer : ConsumerGroup → String → Option ConsumerGroupMember
get_consumer cg consumer_id = lookup consumer_id cg.members

unfoldable pub get_offset : ConsumerGroup → String → Option String
get_offset cg consumer_id = lookup consumer_id cg.offsets

unfoldable pub pending_entries : ConsumerGroup → ℕ → List ConsumerGroupPending
unfolding keep
pending_entries cg now = keep (λ p. leb (now - p.timestamp) cg.max_retention) cg.pending_log

-- A read of a Go map: the zero value where the key is missing.
abbrev pub or_zero : {A : Type 0} → A → Option A → A
or_zero z none = z
or_zero z (some a) = a

-- The consumer for an entry: the first that has not begun or stands at the entry, or else the one
-- with the latest heartbeat. The empty text is no consumer.
unfoldable pub best_consumer :
    ConsumerGroup → String → Map ConsumerGroupMember → String → ℕ → String
best_consumer cg entry_id [] best best_timestamp = best
best_consumer cg entry_id ((consumer_id, member) ∷ rest) best best_timestamp =
    let last_offset = or_zero "" (lookup consumer_id cg.offsets) in
    let later = ltb best_timestamp member.last_heartbeat in
    let chosen =
      best_consumer cg entry_id rest (if later then consumer_id else best)
        (if later then member.last_heartbeat else best_timestamp) in
    if str_eq last_offset "0" || str_eq last_offset entry_id then consumer_id else chosen

-- An empty list for each consumer.
unfoldable pub no_entries : Map ConsumerGroupMember → Map (List StreamEntry)
no_entries [] = []
no_entries ((consumer_id, member) ∷ rest) = (consumer_id, []) ∷ no_entries rest

unfoldable pub distribute :
    ConsumerGroup → List StreamEntry → Map (List StreamEntry) → Map (List StreamEntry)
unfolding best_consumer
distribute cg [] assignment = assignment
distribute cg (entry ∷ rest) assignment =
    let best = best_consumer cg entry.id cg.members "" 0 in
    let had = or_zero [] (lookup best assignment) in
    distribute cg rest
      (if not (str_eq best "") then insert best (had ++ entry ∷ []) assignment else assignment)

unfoldable pub rebalance_assignment : ConsumerGroup → List StreamEntry → Map (List StreamEntry)
unfolding distribute no_entries
rebalance_assignment cg entries =
    let assignment = no_entries cg.members in
    if length cg.members == 0 then assignment else distribute cg entries assignment

unfoldable pub heartbeat : ConsumerGroup → String → ℕ → ConsumerGroup × Option Error
heartbeat cg consumer_id now = elim (lookup consumer_id cg.members) [
  | none ↦ (cg, some (not_found consumer_id))
  | some member ↦ (
    record cg { members = insert consumer_id (record member { last_heartbeat = now }) cg.members },
    none,
  )
]

unfoldable pub dead_among : ℕ → ℕ → Map ConsumerGroupMember → List String
dead_among now timeout [] = []
dead_among now timeout ((consumer_id, member) ∷ rest) =
    let dead = dead_among now timeout rest in
    if ltb timeout (now - member.last_heartbeat) then consumer_id ∷ dead else dead

unfoldable pub detect_dead_consumers : ConsumerGroup → ℕ → ℕ → List String
unfolding dead_among
detect_dead_consumers cg timeout now = dead_among now timeout cg.members

unfoldable pub add_pending : ConsumerGroup → String → String → ℕ → ConsumerGroup
add_pending cg entry_id consumer_id now =
    let pending : ConsumerGroupPending = record {
      entry_id = entry_id;
      consumer_id = consumer_id;
      timestamp = now;
    } in
    record cg { pending_log = cg.pending_log ++ pending ∷ [] }
