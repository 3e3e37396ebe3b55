-- ===== src/Persistence.antt =====
-- persistence/persistence.go: the write-ahead log and the snapshots. The files are lists: `wal` is
-- wal.log, `archived` the logs that rotation has set aside, `snapshots` the snapshot directory in
-- the order of its names. An entry stands as it reads back from its JSON line. Directory, open,
-- write and rename succeed.
pub mod Log
pub mod Tests
use toll_mesh_store.Common.{
  ℕ, String, Map, Bytes, to_valid_utf8, Option, none, some, List, ◌∷◌, ◌++◌, ltb, ◌==◌, keep,
  if◌then◌else◌, [],
}

-- The operations that the callers log: `consume`, `seen` and `set`.
pub data Operation : Type 0 where
  consume seen set : Operation

pub record WalEntry : Type 0 where
  pub timestamp : ℕ
  pub operation : Operation
  pub key : String
  pub value : Option Bytes
  pub namespace : String
  pub expires_at : ℕ
  pub node : String
  pub version : ℕ

pub record Snapshot : Type 0 where
  pub format_version : ℕ
  pub timestamp : ℕ
  pub rate_limiters : Map (Map ℕ)
  pub replay_protection : List String
  pub cache : Map (Map Bytes)
  pub cache_ttl : Map (Map ℕ)
  pub cache_timestamp : Map (Map ℕ)
  pub cache_node : Map (Map String)
  pub metrics : Map (Map ℕ)

pub record PersistenceEngine : Type 0 where
  pub wal : List WalEntry
  pub archived : List (List WalEntry)
  pub snapshots : List Snapshot

unfoldable pub new_persistence_engine : PersistenceEngine
new_persistence_engine = record { wal = []; archived = []; snapshots = [] }

abbrev pub current_format_version : ℕ
current_format_version = 1

-- A value is stored as a JSON text.
unfoldable pub stored_value : Option Bytes → Option Bytes
stored_value none = none
stored_value (some bytes) = some (to_valid_utf8 bytes)

-- `now` is the reading that `LogOperation` takes itself.
unfoldable pub log_operation :
    PersistenceEngine
    → ℕ
    → Operation
    → String
    → Option Bytes
    → String
    → ℕ
    → String
    → ℕ
    → PersistenceEngine
unfolding stored_value
log_operation pe now op key value namespace expires_at node version =
    let entry : WalEntry = record {
      timestamp = now;
      operation = op;
      key = key;
      value = stored_value value;
      namespace = namespace;
      expires_at = expires_at;
      node = node;
      version = if version == 0 then now else version;
    } in
    record pe { wal = pe.wal ++ entry ∷ [] }

-- The loop over the lines; every line is one that `log_operation` wrote.
unfoldable pub replay_wal : PersistenceEngine → ℕ → List WalEntry
replay_wal pe after = keep (λ (e : WalEntry). ltb after e.timestamp) pe.wal

unfoldable pub rotate_wal : PersistenceEngine → PersistenceEngine
rotate_wal pe = record pe { wal = []; archived = pe.archived ++ pe.wal ∷ [] }

-- The file is named after its timestamp, so it comes last in the directory where the clock has not
-- gone back since the last snapshot, which the model takes for granted.
unfoldable pub create_snapshot : PersistenceEngine → ℕ → Snapshot → PersistenceEngine
create_snapshot pe now snapshot =
    let stamped = record snapshot { timestamp = now; format_version = current_format_version } in
    record pe { snapshots = pe.snapshots ++ stamped ∷ [] }

pub data LoadError : Type 0 where
  too_new no_upgrade_path : LoadError

pub data LoadResult : Type 0 where
  nothing : LoadResult
  loaded : Snapshot → LoadResult
  failed : LoadError → LoadResult

unfoldable pub upgrade_snapshot : Snapshot → LoadResult
upgrade_snapshot s =
    if s.format_version == 1
    then loaded (record s { format_version = current_format_version })
    else failed no_upgrade_path

-- What `LoadLatestSnapshot` does with the decoded file.
unfoldable pub check_format : Snapshot → LoadResult
unfolding upgrade_snapshot
check_format s =
    let version = if s.format_version == 0 then 1 else s.format_version in
    let read = record s { format_version = version } in
    if ltb current_format_version version
    then failed too_new
    else if ltb version current_format_version
    then upgrade_snapshot read
    else loaded read

unfoldable pub last_snapshot : List Snapshot → Option Snapshot
last_snapshot [] = none
last_snapshot (s ∷ []) = some s
last_snapshot (s ∷ t ∷ rest) = last_snapshot (t ∷ rest)

unfoldable pub load_latest_snapshot : PersistenceEngine → LoadResult
unfolding last_snapshot check_format
load_latest_snapshot pe = elim (last_snapshot pe.snapshots) [
  | none ↦ nothing
  | some s ↦ check_format s
]
