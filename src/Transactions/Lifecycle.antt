-- ===== src/Transactions/Lifecycle.antt =====
-- The life of a transaction on one node.
use toll_mesh_store.Common.{
  ℕ, ◌≤◌, ◌≡◌, refl, inl, inr, String, lookup, lookup-insert, Bool-cases, length-insert, eq_iff,
  Option, none, some, false, List, [], ◌∷◌, length, arith,
}
use toll_mesh_store.Transactions.{
  pending, Operation, Transaction, TransactionManager, Error, is_pending, on_pending,
  begin_transaction, add_operation, commit_transaction, rollback_transaction,
}

pub data Call (V : Type 0) : Type 0 where
  begins commits rolls_back : String → ℕ → Call V
  adds : String → Operation V → ℕ → Call V

module _ {V : Type 0} where
  unfoldable pub step : TransactionManager V → Call V → TransactionManager V × Option Error
  step tm (begins id now) = begin_transaction tm id now
  step tm (commits id now) = commit_transaction tm id now
  step tm (rolls_back id now) = rollback_transaction tm id now
  step tm (adds id op now) = add_operation tm id op now

  pub run : TransactionManager V → List (Call V) → TransactionManager V
  run tm [] = tm
  run tm (c ∷ cs) = run (step tm c).0 cs

  on_pending_settled :
      (tm : TransactionManager V) (j id : String) (o : Option (Transaction V))
      (body : Transaction V → Transaction V × Option Error) (txn : Transaction V)
      → lookup j tm.transactions ≡ o
      → lookup id tm.transactions ≡ some txn
      → is_pending txn.status ≡ false
      → lookup id (on_pending tm j o body).0.transactions ≡ some txn
  on_pending_settled tm j id none body txn found h s = h
  on_pending_settled tm j id (some other) body txn found h s =
      let stays = lookup-insert j id (body other).0 tm.transactions in
      elim (Bool-cases (is_pending other.status)) [
        | inl fresh ↦ ground (arith, fresh, stays, eq_iff j id)
        | inr settled ↦ rw settled h
      ]

  step_settled :
      (tm : TransactionManager V) (c : Call V) (id : String) (txn : Transaction V)
      → lookup id tm.transactions ≡ some txn
      → is_pending txn.status ≡ false
      → lookup id (step tm c).0.transactions ≡ some txn
  unfolding step begin_transaction add_operation commit_transaction rollback_transaction
  step_settled tm (begins j now) id txn h s = ground (
    arith,
    lookup-insert j id
        (record {
          id = j;
          status = pending;
          operations = [];
          created = now;
          committed_at = 0;
          snapshot = [];
          updated_at = now;
          node = tm.node_id;
        })
        tm.transactions,
    eq_iff j id,
  )
  step_settled tm (commits j now) id txn h s =
      on_pending_settled tm j id (lookup j tm.transactions) _ txn refl h s
  step_settled tm (rolls_back j now) id txn h s =
      on_pending_settled tm j id (lookup j tm.transactions) _ txn refl h s
  step_settled tm (adds j op now) id txn h s =
      on_pending_settled tm j id (lookup j tm.transactions) _ txn refl h s

  -- A transaction that has been committed, rolled back or has failed is never changed again by any
  -- sequence of begins, additions, commits and rollbacks of its node.
  pub settled_stays :
      (tm : TransactionManager V) (calls : List (Call V)) (id : String) (txn : Transaction V)
      → lookup id tm.transactions ≡ some txn
      → is_pending txn.status ≡ false
      → lookup id (run tm calls).transactions ≡ some txn
  unfolding run
  settled_stays tm [] id txn h s = h
  settled_stays tm (c ∷ cs) id txn h s =
      settled_stays (step tm c).0 cs id txn (step_settled tm c id txn h s) s

  -- How many transactions there are.
  size : TransactionManager V → ℕ
  size tm = length tm.transactions

  on_pending-size :
      (tm : TransactionManager V) (j : String) (o : Option (Transaction V))
      (body : Transaction V → Transaction V × Option Error)
      → lookup j tm.transactions ≡ o
      → (size (on_pending tm j o body).0 ≡ size tm)
        × ((on_pending tm j o body).0.max_txns ≡ tm.max_txns)
  unfolding size
  on_pending-size tm j none body h = (refl, refl)
  on_pending-size tm j (some txn) body h =
      let grown = length-insert j (body txn).0 tm.transactions in
      elim (Bool-cases (is_pending txn.status)) [
        | inl fresh ↦ (ground (arith, fresh, h, grown), ground (arith, fresh))
        | inr settled ↦ (ground (arith, settled), ground (arith, settled))
      ]

  abbrev pub IsBounded : TransactionManager V → Type 0
  IsBounded tm = length tm.transactions ≤ tm.max_txns

  begin_transaction-IsBounded :
      (tm : TransactionManager V) (id : String) (now : ℕ)
      → IsBounded tm
      → IsBounded (begin_transaction tm id now).0
  unfolding begin_transaction
  begin_transaction-IsBounded tm id now h = ground (
    arith,
    length-insert id
        (record {
          id = id;
          status = pending;
          operations = [];
          created = now;
          committed_at = 0;
          snapshot = [];
          updated_at = now;
          node = tm.node_id;
        })
        tm.transactions,
  )

  step-IsBounded : (tm : TransactionManager V) (c : Call V) → IsBounded tm → IsBounded (step tm c).0
  unfolding step add_operation commit_transaction rollback_transaction size
  step-IsBounded tm (begins j now) h = begin_transaction-IsBounded tm j now h
  step-IsBounded tm (commits j now) h =
      omega (arith, on_pending-size tm j (lookup j tm.transactions) _ refl)
  step-IsBounded tm (rolls_back j now) h =
      omega (arith, on_pending-size tm j (lookup j tm.transactions) _ refl)
  step-IsBounded tm (adds j op now) h =
      omega (arith, on_pending-size tm j (lookup j tm.transactions) _ refl)

  -- A manager never holds more transactions than its limit, whatever calls its node makes.
  pub run-IsBounded :
      (tm : TransactionManager V) (calls : List (Call V)) → IsBounded tm → IsBounded (run tm calls)
  unfolding run
  run-IsBounded tm [] h = h
  run-IsBounded tm (c ∷ cs) h = run-IsBounded (step tm c).0 cs (step-IsBounded tm c h)
