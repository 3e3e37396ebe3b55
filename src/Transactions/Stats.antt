-- ===== src/Transactions/Stats.antt =====
-- The statistics of the transaction manager (GetStats of transactions/transactions.go).
use toll_mesh_store.Common.{
  ℕ, suc, ◌+◌, ◌≡◌, refl, Map, Bool, true, false, [], ◌∷◌, length, arith, if◌then◌else◌,
}
use toll_mesh_store.Transactions.{
  Status, pending, committed, rolled_back, failed, Transaction, TransactionManager,
}

unfoldable pub same_status : Status → Status → Bool
same_status pending pending = true
same_status committed committed = true
same_status rolled_back rolled_back = true
same_status failed failed = true
same_status a b = false

pub record Stats : Type 0 where
  pub total_transactions : ℕ
  pub pending_count : ℕ
  pub committed_count : ℕ
  pub rolled_back_count : ℕ
  pub failed_count : ℕ
  pub max_transactions : ℕ
  pub timeout : ℕ

module _ {V : Type 0} where
  -- How many transactions have the status.
  unfoldable pub count_status : Status → Map (Transaction V) → ℕ
  unfolding same_status
  count_status st [] = 0
  count_status st ((k, txn) ∷ rest) =
      let n = count_status st rest in if same_status st txn.status then n + 1 else n

  unfoldable pub get_stats : TransactionManager V → Stats
  unfolding count_status
  get_stats tm = record {
    total_transactions = length tm.transactions;
    pending_count = count_status pending tm.transactions;
    committed_count = count_status committed tm.transactions;
    rolled_back_count = count_status rolled_back tm.transactions;
    failed_count = count_status failed tm.transactions;
    max_transactions = tm.max_txns;
    timeout = tm.txn_timeout;
  }

  count_status-total :
      (m : Map (Transaction V))
      → count_status pending m
          + count_status committed m
          + (count_status rolled_back m + count_status failed m)
        ≡ length m
  unfolding count_status same_status
  count_status-total [] = refl
  count_status-total ((k, txn) ∷ rest) =
      let total = count_status-total rest in
      elim txn.status
        as (λ st.
          (if same_status pending st
              then count_status pending rest + 1
              else count_status pending rest)
            + (if same_status committed st
                then count_status committed rest + 1
                else count_status committed rest)
            + ((if same_status rolled_back st
                  then count_status rolled_back rest + 1
                  else count_status rolled_back rest)
                + (if same_status failed st
                    then count_status failed rest + 1
                    else count_status failed rest))
          ≡ suc (length rest)) [
            | pending ↦ omega (arith, total)
            | committed ↦ omega (arith, total)
            | rolled_back ↦ omega (arith, total)
            | failed ↦ omega (arith, total)
          ]

  -- The statistics count every transaction once, under the one status that it has.
  pub get_stats-total :
      (tm : TransactionManager V)
      → let stats = get_stats tm in
        stats.pending_count + stats.committed_count + (stats.rolled_back_count + stats.failed_count)
        ≡ stats.total_transactions
  unfolding get_stats
  get_stats-total tm = count_status-total tm.transactions
