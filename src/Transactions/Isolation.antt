-- ===== src/Transactions/Isolation.antt =====
-- The snapshot that a transaction reads from and writes to (transactions/transactions.go).
use toll_mesh_store.Common.{
  ◌≡◌, String, str_eq, Map, lookup, insert, lookup-insert, Unique, Option, some, [], arith,
  if◌then◌else◌,
}
use toll_mesh_store.Core.Crdt.{copy_into}
use toll_mesh_store.Core.Crdt.Copies.{lookup-copy}

-- A private copy of the values that a transaction reads and writes.
pub record SnapshotIsolation (V : Type 0) : Type 0 where
  pub txn_id : String
  pub copy : Map V

module _ {V : Type 0} where
  unfoldable pub new_snapshot_isolation : String → Map V → SnapshotIsolation V
  new_snapshot_isolation txn_id values = record { txn_id = txn_id; copy = copy_into [] values }

  unfoldable pub read : SnapshotIsolation V → String → Option V
  read si key = lookup key si.copy

  unfoldable pub write : SnapshotIsolation V → String → V → SnapshotIsolation V
  write si key value = record si { copy = insert key value si.copy }

  unfoldable pub get_snapshot : SnapshotIsolation V → Map V
  get_snapshot si = copy_into [] si.copy

  -- A context reads what it wrote itself, and of every other key the value that the store had when
  -- the context was made.
  pub read-write :
      (txn_id : String) (values : Map V) (key other : String) (value : V)
      → Unique values
      → read (write (new_snapshot_isolation txn_id values) key value) other
        ≡ (if str_eq key other then some value else lookup other values)
  unfolding read write new_snapshot_isolation
  read-write txn_id values key other value u =
      ground
        (arith, lookup-insert key other value (copy_into [] values), lookup-copy values other u)
