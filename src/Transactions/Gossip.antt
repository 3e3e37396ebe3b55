-- ===== src/Transactions/Gossip.antt =====
-- Merging a peer's transactions.
use toll_mesh_store.Common.{
  ℕ, ◌≡◌, ◌⊎◌, inl, inr, String, Map, lookup, insert, lookup-insert, lookup-insert_self, eq_iff,
  str_eq, Option, none, some, false, List, [], ◌∷◌, arith, Version, version_ltb, version_ltb_irrefl,
  version_ltb_asym, version_ltb-false_trans, Bool-cases,
}
use toll_mesh_store.Transactions.{
  Transaction, TransactionManager, txn_less, merge_one, merge_into, merge_snapshot,
}

abbrev pub version_of : {V : Type 0} → Transaction V → Version
version_of t = (t.updated_at, t.node)

txn_less-eq :
    (s : ℕ) (m : String) (t : ℕ) (n : String) → txn_less s m t n ≡ version_ltb (s, m) (t, n)
unfolding txn_less version_ltb
txn_less-eq s m t n = ground arith

module _ {V : Type 0} where
  -- There is a transaction, and it is no older than the version.
  abbrev pub AtLeast : Version → Option (Transaction V) → Type 0
  AtLeast v none = ⊥
  AtLeast v (some t) = version_ltb (version_of t) v ≡ false

  merge_one-peer :
      (o : Option (Transaction V)) (peer : Transaction V)
      → AtLeast (version_of peer) (some (merge_one o peer))
  unfolding merge_one
  merge_one-peer none peer = version_ltb_irrefl (version_of peer)
  merge_one-peer (some local) peer = ground (
    arith,
    txn_less-eq local.updated_at local.node peer.updated_at peer.node,
    version_ltb_irrefl (version_of peer),
  )

  merge_one-local :
      (o : Option (Transaction V)) (peer : Transaction V) (v : Version)
      → AtLeast v o
      → AtLeast v (some (merge_one o peer))
  unfolding merge_one
  merge_one-local none peer v h = absurd h
  merge_one-local (some local) peer v h = ground (
    arith,
    txn_less-eq local.updated_at local.node peer.updated_at peer.node,
    version_ltb_asym (version_of local) (version_of peer),
    version_ltb-false_trans (version_of peer) (version_of local) v,
  )

  -- A merge never takes a node back to an older version.
  merge_into-local :
      (txns : Map (Transaction V)) (peers : List (Transaction V)) (id : String) (v : Version)
      → AtLeast v (lookup id txns)
      → AtLeast v (lookup id (merge_into txns peers))
  unfolding merge_into
  merge_into-local txns [] id v h = h
  merge_into-local txns (p ∷ rest) id v h =
      merge_into-local (insert p.id (merge_one (lookup p.id txns) p) txns) rest id v
        (elim (Bool-cases (str_eq p.id id)) [
          | inl hit ↦ ground (
            arith,
            hit,
            lookup-insert p.id id (merge_one (lookup p.id txns) p) txns,
            eq_iff p.id id,
            merge_one-local (lookup id txns) p v h,
          )
          | inr miss ↦ rw (lookup-insert p.id id (merge_one (lookup p.id txns) p) txns, miss) h
        ])

  -- One of the transactions of a peer's snapshot.
  pub data Among (t : Transaction V) : List (Transaction V) → Type 0 where
    here : {rest : List (Transaction V)} → Among t (t ∷ rest)
    there : {p : Transaction V} {rest : List (Transaction V)} → Among t rest → Among t (p ∷ rest)

  merge_into-peer :
      (t : Transaction V) (txns : Map (Transaction V)) {peers : List (Transaction V)}
      → Among t peers
      → AtLeast (version_of t) (lookup t.id (merge_into txns peers))
  unfolding merge_into
  merge_into-peer t txns (here {rest = rest}) =
      merge_into-local (insert t.id (merge_one (lookup t.id txns) t) txns) rest t.id (version_of t)
        (rw (lookup-insert_self t.id (merge_one (lookup t.id txns) t) txns)
          (merge_one-peer (lookup t.id txns) t))
  merge_into-peer t txns (there {p = p} m) =
      merge_into-peer t (insert p.id (merge_one (lookup p.id txns) p) txns) m

  -- A transaction that a merge leaves on a node is no older than the one the node had under that
  -- id, and than every one the peer sent under it.
  pub merge_snapshot_newest :
      (tm : TransactionManager V) (peers : List (Transaction V)) (t : Transaction V)
      → (lookup t.id tm.transactions ≡ some t) ⊎ Among t peers
      → AtLeast (version_of t) (lookup t.id (merge_snapshot tm peers).transactions)
  unfolding merge_snapshot
  merge_snapshot_newest tm peers t (inl kept) =
      merge_into-local tm.transactions peers t.id (version_of t)
        (rw kept (version_ltb_irrefl (version_of t)))
  merge_snapshot_newest tm peers t (inr sent) = merge_into-peer t tm.transactions sent
