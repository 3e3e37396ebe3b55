-- ===== src/Store/Recovery/Steps.antt =====
-- Each operation of a node keeps its log good for a restart.
use toll_mesh_store.Common.{
  ℕ, ◌+◌, ◌<◌, ◌≡◌, refl, String, none, some, arith, ltb, milli, subst, sym, inl, inr, Bool-cases,
  if◌then◌else◌,
}
use toll_mesh_store.Core.Crdt.{GCounter, value, count_of, increment}
use toll_mesh_store.Core.Crdt
use toll_mesh_store.Persistence.{PersistenceEngine, consume, seen, set, log_operation}
use toll_mesh_store.Store.{MeshStore, counter_of, consume_key, seen_key, set_key}
use toll_mesh_store.Store.Recovery.{
  replayed, Recovered, LocalOp, consumes, sees, sets, step, Clocked, back_of, IsRecovered,
}
use toll_mesh_store.Store.Recovery.Replay.{replayed-log}
use toll_mesh_store.Store.Recovery.Calls.{
  Recovered-consume, Recovered-refused, Recovered-seen, Recovered-set, Recovered-replay,
}

transfer :
    (after : MeshStore) (name : String) (pe : PersistenceEngine)
    → after.node_name ≡ name
    → after.persistence ≡ pe
    → Recovered after (replayed name pe)
    → IsRecovered after
transfer after name pe p q r =
    subst (λ n. Recovered after (replayed n after.persistence)) (sym p)
      (subst (λ e. Recovered after (replayed name e)) (sym q) r)

consume_key-persistence :
    (ms : MeshStore) (key : String) (limit window logged now latency : ℕ)
    → (consume_key ms key limit window logged now latency).0.persistence ≡ (
        if ltb (value (counter_of ms.rate_limiters key)) limit
        then log_operation ms.persistence logged consume key none "" 0 "" 0
        else ms.persistence)
unfolding consume_key
consume_key-persistence ms key limit window logged now latency = refl

consume_key-IsRecovered :
    (ms : MeshStore) (key : String) (limit window logged now latency : ℕ)
    → 0 < logged
    → IsRecovered ms
    → IsRecovered (consume_key ms key limit window logged now latency).0
consume_key-IsRecovered ms key limit window logged now latency h r =
    let name = ms.node_name in
    let logs = consume_key-persistence ms key limit window logged now latency in
    elim (Bool-cases (ltb (value (counter_of ms.rate_limiters key)) limit)) [
      | inl allowed ↦
          transfer _ name (log_operation ms.persistence logged consume key none "" 0 "" 0)
            (unfold consume_key in refl) (ground (arith, logs, allowed))
            (rw (replayed-log name ms.persistence logged consume key none "" 0 "" 0 h)
              (Recovered-consume ms (back_of ms) key limit window logged now latency _ r allowed))
      | inr refused ↦
          transfer _ name ms.persistence (unfold consume_key in refl)
            (ground (arith, logs, refused))
            (Recovered-refused ms (back_of ms) key limit window logged now latency r refused)
    ]

seen_key-parts :
    (ms : MeshStore) (key : String) (logged latency : ℕ)
    → let after = (seen_key ms key logged latency).0 in
      (after.node_name ≡ ms.node_name)
      × (after.persistence ≡ (
          if Crdt.contains ms.replay_protection key
          then ms.persistence
          else log_operation ms.persistence logged seen key none "" 0 "" 0))
unfolding seen_key
seen_key-parts ms key logged latency = (ground arith, ground arith)

seen_key-IsRecovered :
    (ms : MeshStore) (key : String) (logged latency : ℕ)
    → 0 < logged
    → IsRecovered ms
    → IsRecovered (seen_key ms key logged latency).0
seen_key-IsRecovered ms key logged latency h r =
    let name = ms.node_name in
    let (named, logs) = seen_key-parts ms key logged latency in
    elim (Bool-cases (Crdt.contains ms.replay_protection key)) [
      | inl old ↦
          transfer _ name ms.persistence named (ground (arith, logs, old))
            (Recovered-replay ms (back_of ms) key logged latency r old)
      | inr new ↦
          transfer _ name (log_operation ms.persistence logged seen key none "" 0 "" 0) named
            (ground (arith, logs, new))
            (rw (replayed-log name ms.persistence logged seen key none "" 0 "" 0 h)
              (Recovered-seen ms (back_of ms) key logged latency _ r new))
    ]

-- Every local operation keeps the log good for a restart.
pub step-IsRecovered :
    (ms : MeshStore) (op : LocalOp) → Clocked op → IsRecovered ms → IsRecovered (step ms op)
unfolding step
step-IsRecovered ms (consumes key limit window logged now latency) h r =
    consume_key-IsRecovered ms key limit window logged now latency h r
step-IsRecovered ms (sees key logged latency) h r = seen_key-IsRecovered ms key logged latency h r
step-IsRecovered ms (sets ns key v ttl ts now logged latency) h r =
    let name = ms.node_name in
    let expires_ms = if ltb 0 ttl then milli (now + ttl) else 0 in
    let pe = log_operation ms.persistence logged set key (some v) ns expires_ms name 0 in
    transfer _ name pe (unfold set_key in refl) (unfold set_key in refl) (
      rw (replayed-log name ms.persistence logged set key (some v) ns expires_ms name 0 h.0)
        (Recovered-set ms (back_of ms) ns key v ttl ts now logged latency _ r h.1))
