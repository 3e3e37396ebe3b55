-- ===== src/Transactions/Tests.antt =====
-- The theorems on transactions, each on a manager with one transaction.
use toll_mesh_store.Common.{
  ℕ, ◌≡◌, refl, inr, String, Option, none, some, List, [], ◌∷◌, lookup, insert, arith,
}
use toll_mesh_store.Transactions.{
  Status, pending, committed, set, Operation, Transaction, TransactionManager, operation_failed,
  merge_snapshot,
}
use toll_mesh_store.Transactions.Lifecycle.{begins, rolls_back, run, settled_stays}
use toll_mesh_store.Common.{Map}
use toll_mesh_store.Transactions.Committing.{
  Commits, open_with, stamped, last_call, SameElse, transact, transact_lem,
}
use toll_mesh_store.Transactions.Gossip.{AtLeast, version_of, here, merge_snapshot_newest}

-- The transaction "t", in a state and of a version.
abbrev txn_in : Status → ℕ → String → Transaction ℕ
txn_in status updated_at node = record {
  id = "t";
  status = status;
  operations =
      record {
        type = set;
        key = "x";
        namespace = "n";
        value = some 3;
        result = none;
        error = none;
        timestamp = 5;
      }
      ∷ [];
  created = 4;
  committed_at = 0;
  snapshot = [];
  updated_at = updated_at;
  node = node;
}

abbrev manager : Status → TransactionManager ℕ
manager status = record {
  transactions = ("t", txn_in status 5 "a") ∷ [];
  max_txns = 2;
  txn_timeout = 100;
  node_id = "a";
}

settled_stays_example :
    lookup "t" (run (manager committed) (rolls_back "t" 8 ∷ begins "t" 9 ∷ [])).transactions
    ≡ some (txn_in committed 5 "a")
unfolding lookup
settled_stays_example =
    settled_stays (manager committed) (rolls_back "t" 8 ∷ begins "t" 9 ∷ []) "t"
      (txn_in committed 5 "a") refl refl

abbrev operation : String → Option String → Operation ℕ
operation key error = record {
  type = set;
  key = key;
  namespace = "n";
  value = some 3;
  result = none;
  error = error;
  timestamp = 0;
}

-- The second of three has an error.
abbrev operations : List (Operation ℕ × ℕ)
operations =
    (operation "x" none, 8) ∷ (operation "y" (some "boom"), 9) ∷ (operation "z" none, 10) ∷ []

transact_lem_example :
    (let (tm', err) = transact (manager committed) "u" 7 operations 11 in
      Commits "a" "u" 11
        (open_with "u" 7 (stamped operations) (last_call 7 operations) "a")
        tm'
        err)
    × SameElse "u" (manager committed) (transact (manager committed) "u" 7 operations 11).0
unfolding lookup
transact_lem_example = transact_lem (manager committed) "u" 7 operations 11 refl (omega arith)

-- It fails with that error.
failed_with_boom :
    (transact (manager committed) "u" 7 operations 11).1 ≡ some (operation_failed "boom")
unfolding transact lookup insert
failed_with_boom = refl

merge_snapshot_newest_example :
    AtLeast
      (version_of (txn_in committed 7 "b"))
      (lookup "t" (merge_snapshot (manager pending) (txn_in committed 7 "b" ∷ [])).transactions)
merge_snapshot_newest_example =
    merge_snapshot_newest (manager pending) (txn_in committed 7 "b" ∷ []) (txn_in committed 7 "b")
      (inr here)

abbrev stored : Map ℕ
stored = ("x", 1) ∷ ("y", 2) ∷ []
