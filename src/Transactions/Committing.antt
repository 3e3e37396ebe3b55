-- ===== src/Transactions/Committing.antt =====
-- A transaction from its begin to its commit (BeginTransaction, AddOperation and CommitTransaction of
-- transactions/transactions.go).
use mathlib.Core.List.{append_assoc, append-nil}
use toll_mesh_store.Common.{
  ℕ, ◌<◌, ◌≡◌, ◌⊎◌, refl, ap, ◌∙◌, inl, inr, String, str_eq, lookup, insert, lookup-insert,
  lookup-insert_self, subst, Option-cases, Option, none, some, false, List, [], ◌∷◌, ◌++◌, length,
  leb, arith,
}
use toll_mesh_store.Transactions.{
  pending, committed, failed, Operation, Transaction, TransactionManager, Error, operation_failed,
  begin_transaction, add_operation, first_error, commit_transaction,
}

module _ {V : Type 0} where
  -- No operation has an error.
  abbrev pub Clean : List (Operation V) → Type 0
  Clean [] = Unit
  Clean (op ∷ rest) = (op.error ≡ none) × Clean rest

  -- The operations up to the first that has an error, which is `e`, have none.
  abbrev pub FailsFirst : String → List (Operation V) → Type 0
  FailsFirst e ops =
      (clean : List (Operation V)) × (op : Operation V) × (rest : List (Operation V)) × (ops
        ≡ clean ++ op ∷ rest)
      × Clean clean
      × (op.error ≡ some e)

  first_error-cases :
      (ops : List (Operation V))
      → (Clean ops × (first_error ops ≡ none))
        ⊎ ((e : String) × FailsFirst e ops × (first_error ops ≡ some e))
  unfolding first_error
  first_error-cases [] = inl (tt, refl)
  first_error-cases (op ∷ rest) = elim (Option-cases op.error) [
    | inr (e, bad) ↦ inr (e, ([], op, rest, refl, tt, bad), rw bad refl)
    | inl good ↦ elim (first_error-cases rest) [
      | inl (clean, none_bad) ↦ inl ((good, clean), rw good none_bad)
      | inr (e, (clean, bad, later, split, all, is_bad), first) ↦ inr (
        e,
        (op ∷ clean, bad, later, ap (λ ops. op ∷ ops) split, (good, all), is_bad),
        rw good first,
      )
    ]
  ]

  -- A client's calls: begin, add each operation at its time, commit.
  unfoldable pub gather :
      TransactionManager V → String → List (Operation V × ℕ) → TransactionManager V
  unfolding add_operation
  gather tm id [] = tm
  gather tm id ((op, at) ∷ rest) = gather (add_operation tm id op at).0 id rest

  unfoldable pub transact :
      TransactionManager V
      → String
      → ℕ
      → List (Operation V × ℕ)
      → ℕ
      → TransactionManager V × Option Error
  unfolding gather begin_transaction commit_transaction
  transact tm id began ops now =
      commit_transaction (gather (begin_transaction tm id began).0 id ops) id now

  -- The operations as the transaction keeps them, and the time of the last call before the commit.
  abbrev pub stamped : List (Operation V × ℕ) → List (Operation V)
  stamped [] = []
  stamped ((op, at) ∷ rest) = record op { timestamp = at } ∷ stamped rest

  abbrev pub last_call : ℕ → List (Operation V × ℕ) → ℕ
  last_call began [] = began
  last_call began ((op, at) ∷ rest) = last_call at rest

  abbrev pub open_with : String → ℕ → List (Operation V) → ℕ → String → Transaction V
  open_with id began ops updated_at node = record {
    id = id;
    status = pending;
    operations = ops;
    created = began;
    committed_at = 0;
    snapshot = [];
    updated_at = updated_at;
    node = node;
  }

  -- The transactions but for one.
  abbrev pub SameElse : String → TransactionManager V → TransactionManager V → Type 0
  SameElse id tm tm' =
      (j : String) → str_eq id j ≡ false → lookup j tm'.transactions ≡ lookup j tm.transactions

  insert-SameElse :
      (tm : TransactionManager V) (id : String) (txn : Transaction V)
      → SameElse id tm (record tm { transactions = insert id txn tm.transactions })
  insert-SameElse tm id txn j n = lookup-insert id j txn tm.transactions ∙ rw n refl

  begin_lem :
      (tm : TransactionManager V) (id : String) (began : ℕ)
      → lookup id tm.transactions ≡ none
      → length tm.transactions < tm.max_txns
      → (begin_transaction tm id began).0 ≡ record tm {
        transactions = insert id (open_with id began [] began tm.node_id) tm.transactions;
      }
  unfolding begin_transaction
  begin_lem tm id began new room =
      let full : leb tm.max_txns (length tm.transactions) ≡ false = ground (arith, room) in
      rw (begin_transaction, full, new) refl

  gather_lem :
      (tm : TransactionManager V) (id : String) (began : ℕ) (had : List (Operation V)) (at : ℕ)
      (ops : List (Operation V × ℕ))
      → lookup id tm.transactions ≡ some (open_with id began had at tm.node_id)
      → (lookup id (gather tm id ops).transactions
          ≡ some (open_with id began (had ++ stamped ops) (last_call at ops) tm.node_id))
        × ((gather tm id ops).node_id ≡ tm.node_id)
        × SameElse id tm (gather tm id ops)
  unfolding gather add_operation
  gather_lem tm id began had at [] h = (rw append-nil h, refl, λ j n. refl)
  gather_lem tm id began had at ((op, t) ∷ rest) h =
      let stamp : Operation V = record op { timestamp = t } in
      let txn = open_with id began (had ++ stamp ∷ []) t tm.node_id in
      let next = record tm { transactions = insert id txn tm.transactions } in
      let added : (add_operation tm id op t).0 ≡ next = rw (add_operation, h) refl in
      let (found, node, others) =
        gather_lem next id began (had ++ stamp ∷ []) t rest
          (lookup-insert_self id txn tm.transactions) in
      rw (gather, added)
        (rw append_assoc at found, node, λ j n. others j n ∙ insert-SameElse tm id txn j n)

  -- What a commit makes of the transaction that is there under the id.
  abbrev pub Commits :
      String → String → ℕ → Transaction V → TransactionManager V → Option Error → Type 0
  Commits node id now txn tm' err =
      (Clean txn.operations
        × (err ≡ none)
        × (lookup id tm'.transactions
            ≡ some (record txn {
              status = committed;
              committed_at = now;
              updated_at = now;
              node = node;
            })))
      ⊎ ((e : String) × FailsFirst e txn.operations
          × (err ≡ some (operation_failed e))
          × (lookup id tm'.transactions ≡ some (record txn { status = failed })))

  commit_transaction_lem :
      (tm : TransactionManager V) (id : String) (now : ℕ) (txn : Transaction V)
      → lookup id tm.transactions ≡ some txn
      → txn.status ≡ pending
      → (let (tm', err) = commit_transaction tm id now in Commits tm.node_id id now txn tm' err)
        × SameElse id tm (commit_transaction tm id now).0
  unfolding commit_transaction
  commit_transaction_lem tm id now txn h fresh = elim (first_error-cases txn.operations) [
    | inl (clean, e) ↦
        let ended = record txn {
          status = committed;
          committed_at = now;
          updated_at = now;
          node = tm.node_id;
        } in
        rw (commit_transaction, h, fresh, e)
          (
            inl (clean, refl, lookup-insert_self id ended tm.transactions),
            insert-SameElse tm id ended,
          )
    | inr (error, bad, e) ↦
        let ended = record txn { status = failed } in
        rw (commit_transaction, h, fresh, e)
          (
            inr (error, bad, refl, lookup-insert_self id ended tm.transactions),
            insert-SameElse tm id ended,
          )
  ]

  -- A transaction that a client begins under a new id, gives any operations and commits: where none
  -- of them has an error, it is committed with just these operations in their order, each with the
  -- time at which it was added. Else it has failed with the error of the first that has one, and keeps
  -- the version of the last call before the commit. No other transaction changes.
  pub transact_lem :
      (tm : TransactionManager V) (id : String) (began : ℕ) (ops : List (Operation V × ℕ)) (now : ℕ)
      → lookup id tm.transactions ≡ none
      → length tm.transactions < tm.max_txns
      → (let (tm', err) = transact tm id began ops now in
          Commits tm.node_id id now
            (open_with id began (stamped ops) (last_call began ops) tm.node_id)
            tm'
            err)
        × SameElse id tm (transact tm id began ops now).0
  unfolding transact
  transact_lem tm id began ops now new room =
      let txn = open_with id began [] began tm.node_id in
      let fresh = record tm { transactions = insert id txn tm.transactions } in
      let begun : (begin_transaction tm id began).0 ≡ fresh = begin_lem tm id began new room in
      let (found, node, others) =
        gather_lem fresh id began [] began ops (lookup-insert_self id txn tm.transactions) in
      let opened = open_with id began (stamped ops) (last_call began ops) tm.node_id in
      let ended = commit_transaction (gather fresh id ops) id now in
      let (commits, rest) = commit_transaction_lem (gather fresh id ops) id now opened found refl in
      rw (transact, begun)
        (
          subst (λ x. Commits x id now opened ended.0 ended.1) node commits,
          λ j n. rest j n ∙ others j n ∙ insert-SameElse tm id txn j n,
        )
