-- ===== src/Transactions.antt =====
-- transactions/transactions.go: the transaction manager and the snapshot isolation context. The
-- values that operations carry are opaque to this code: their type is the parameter `V`. Each call
-- is one step, taken at the time `now` in milliseconds: a call of another goroutine between the
-- manager's lock and the transaction's is left out.
pub mod Lifecycle
pub mod Committing
pub mod Gossip
pub mod Stats
pub mod Isolation
pub mod Tests
use toll_mesh_store.Common.{
  ℕ, ◌-◌, String, Map, lookup, insert, erase, Option, none, some, Bool, true, false, not, List, ◌∷◌,
  ◌++◌, length, ltb, leb, str_ltb, ◌==◌, is_some, if◌then◌else◌, [],
}

pub data Status : Type 0 where
  pending committed rolled_back failed : Status

pub data OperationType : Type 0 where
  consume seen get set : OperationType

-- `error` is the message of the operation's error, if it has one.
pub record Operation (V : Type 0) : Type 0 where
  pub type : OperationType
  pub key : String
  pub namespace : String
  pub value : Option V
  pub result : Option V
  pub error : Option String
  pub timestamp : ℕ

-- `committed_at` is 0 until the transaction commits.
pub record Transaction (V : Type 0) : Type 0 where
  pub id : String
  pub status : Status
  pub operations : List (Operation V)
  pub created : ℕ
  pub committed_at : ℕ
  pub snapshot : Map V
  pub updated_at : ℕ
  pub node : String

pub record TransactionManager (V : Type 0) : Type 0 where
  pub transactions : Map (Transaction V)
  pub max_txns : ℕ
  pub txn_timeout : ℕ
  pub node_id : String

pub data Error : Type 0 where
  max_reached : Error
  already_exists not_found not_pending operation_failed : String → Error

abbrev pub is_pending : Status → Bool
is_pending pending = true
is_pending committed = false
is_pending rolled_back = false
is_pending failed = false

unfoldable pub txn_less : ℕ → String → ℕ → String → Bool
txn_less ts_a node_a ts_b node_b =
    if not (ts_a == ts_b) then ltb ts_a ts_b else str_ltb node_a node_b

module _ {V : Type 0} where
  unfoldable pub new_transaction_manager : ℕ → ℕ → String → TransactionManager V
  new_transaction_manager max_txns txn_timeout node_id = record {
    transactions = [];
    max_txns = max_txns;
    txn_timeout = txn_timeout;
    node_id = node_id;
  }

  -- `none` is success.
  unfoldable pub begin_transaction :
      TransactionManager V → String → ℕ → TransactionManager V × Option Error
  begin_transaction tm txn_id now =
      let txn : Transaction V = record {
        id = txn_id;
        status = pending;
        operations = [];
        created = now;
        committed_at = 0;
        snapshot = [];
        updated_at = now;
        node = tm.node_id;
      } in
      if leb tm.max_txns (length tm.transactions)
      then (tm, some max_reached)
      else if is_some (lookup txn_id tm.transactions)
      then (tm, some (already_exists txn_id))
      else (record tm { transactions = insert txn_id txn tm.transactions }, none)

  -- The lookup and the check on the state that three methods begin with; `body` is the rest, on the
  -- transaction that was found.
  abbrev pub on_pending :
      TransactionManager V
      → String
      → Option (Transaction V)
      → (Transaction V → Transaction V × Option Error)
      → TransactionManager V × Option Error
  on_pending tm txn_id none body = (tm, some (not_found txn_id))
  on_pending tm txn_id (some txn) body =
      let (txn', err) = body txn in
      if is_pending txn.status
      then (record tm { transactions = insert txn_id txn' tm.transactions }, err)
      else (tm, some (not_pending txn_id))

  unfoldable pub add_operation :
      TransactionManager V → String → Operation V → ℕ → TransactionManager V × Option Error
  add_operation tm txn_id op now = on_pending tm txn_id (lookup txn_id tm.transactions) λ txn. (
    record txn {
      operations = txn.operations ++ record op { timestamp = now } ∷ [];
      updated_at = now;
      node = tm.node_id;
    },
    none,
  )

  -- The first error among the operations.
  unfoldable pub first_error : List (Operation V) → Option String
  first_error [] = none
  first_error (op ∷ rest) = if is_some op.error then op.error else first_error rest

  abbrev pub commit_checked :
      String → ℕ → Option String → Transaction V → Transaction V × Option Error
  commit_checked node now none txn =
      (record txn { status = committed; committed_at = now; updated_at = now; node = node }, none)
  commit_checked node now (some e) txn = (record txn { status = failed }, some (operation_failed e))

  unfoldable pub commit_transaction :
      TransactionManager V → String → ℕ → TransactionManager V × Option Error
  unfolding first_error
  commit_transaction tm txn_id now =
      on_pending tm txn_id (lookup txn_id tm.transactions)
        λ txn. commit_checked tm.node_id now (first_error txn.operations) txn

  unfoldable pub rollback_transaction :
      TransactionManager V → String → ℕ → TransactionManager V × Option Error
  rollback_transaction tm txn_id now =
      on_pending tm txn_id (lookup txn_id tm.transactions)
        λ txn. (record txn { status = rolled_back; updated_at = now; node = tm.node_id }, none)

  unfoldable pub get_transaction : TransactionManager V → String → Option (Transaction V)
  get_transaction tm txn_id = lookup txn_id tm.transactions

  unfoldable pub get_transaction_status : TransactionManager V → String → Option Status
  unfolding get_transaction
  get_transaction_status tm txn_id = elim (get_transaction tm txn_id) [
    | none ↦ none
    | some txn ↦ some txn.status
  ]

  unfoldable pub get_transaction_operations :
      TransactionManager V → String → Option (List (Operation V))
  unfolding get_transaction
  get_transaction_operations tm txn_id = elim (get_transaction tm txn_id) [
    | none ↦ none
    | some txn ↦ some txn.operations
  ]

  unfoldable pub delete_transaction : TransactionManager V → String → TransactionManager V
  delete_transaction tm txn_id = record tm { transactions = erase txn_id tm.transactions }

  -- One round of the cleanup; `now - created` is negative, and so no reason to drop, where the
  -- transaction lies in the future.
  unfoldable pub drop_expired :
      ℕ → ℕ → Map (Transaction V) → Map (Transaction V) → Map (Transaction V)
  drop_expired timeout now [] kept = kept
  drop_expired timeout now ((txn_id, txn) ∷ rest) kept =
      drop_expired timeout now rest
        (if ltb timeout (now - txn.created) then erase txn_id kept else kept)

  unfoldable pub cleanup_expired_transactions : TransactionManager V → ℕ → TransactionManager V
  unfolding drop_expired
  cleanup_expired_transactions tm now = record tm {
    transactions = drop_expired tm.txn_timeout now tm.transactions tm.transactions;
  }

  unfoldable pub values : Map (Transaction V) → List (Transaction V)
  values [] = []
  values ((k, txn) ∷ rest) = txn ∷ values rest

  unfoldable pub snapshot : TransactionManager V → List (Transaction V)
  unfolding values
  snapshot tm = values tm.transactions

  -- The fields of `local` that a newer peer's version replaces: all but the id.
  unfoldable pub adopt : Transaction V → Transaction V → Transaction V
  adopt local peer = record peer { id = local.id }

  unfoldable pub merge_one : Option (Transaction V) → Transaction V → Transaction V
  unfolding adopt txn_less
  merge_one none peer = peer
  merge_one (some local) peer =
      if txn_less local.updated_at local.node peer.updated_at peer.node
      then adopt local peer
      else local

  unfoldable pub merge_into : Map (Transaction V) → List (Transaction V) → Map (Transaction V)
  unfolding merge_one
  merge_into txns [] = txns
  merge_into txns (peer ∷ rest) =
      merge_into (insert peer.id (merge_one (lookup peer.id txns) peer) txns) rest

  unfoldable pub merge_snapshot : TransactionManager V → List (Transaction V) → TransactionManager V
  unfolding merge_into
  merge_snapshot tm peers = record tm { transactions = merge_into tm.transactions peers }
