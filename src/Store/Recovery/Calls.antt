-- ===== src/Store/Recovery/Calls.antt =====
-- A call on the live store and its log entry on the recovered one.
use toll_mesh_store.Common.{
  ℕ, ◌+◌, ◌≤◌, ◌≡◌, String, Bytes, to_valid_utf8, lookup-insert, lookup_in-insert_in, eq_iff, none,
  some, true, false, arith, ltb, milli, if◌then◌else◌,
}
use toll_mesh_store.Core.Crdt.{GCounter, value, count_of, increment}
use toll_mesh_store.Core.Crdt
use toll_mesh_store.Core.Crdt.Counter.{value-increment}
use toll_mesh_store.Core.Crdt.Sets.{contains-add}
use toll_mesh_store.Persistence.{PersistenceEngine, consume, seen, set, stored_value}
use toll_mesh_store.Store.{
  MeshStore, counter_of, consume_key, seen_key, set_key, expiry_of, apply_wal_entry,
}
use toll_mesh_store.Store.Recovery.{Recovered}
use toll_mesh_store.Store.Recovery.Replay.{with_engine, logged_entry}

pub Recovered-consume :
    (ms back : MeshStore) (key : String) (limit window logged now latency : ℕ)
    (pe : PersistenceEngine)
    → Recovered ms back
    → ltb (value (counter_of ms.rate_limiters key)) limit ≡ true
    → Recovered
        (consume_key ms key limit window logged now latency).0
        (with_engine pe (apply_wal_entry back (logged_entry logged consume key none "" 0 "" 0)))
unfolding consume_key apply_wal_entry
Recovered-consume ms back key limit window logged now latency pe r allowed =
    let live = counter_of ms.rate_limiters key in
    let old = counter_of back.rate_limiters key in
    record {
      node_name = r.node_name;
      counts = λ j. ground (
        arith,
        allowed,
        lookup-insert key j (increment live ms.node_name) ms.rate_limiters,
        lookup-insert key j (increment old back.node_name) back.rate_limiters,
        (value-increment live ms.node_name j).0,
        (value-increment old back.node_name j).0,
        r.counts key,
        r.counts j,
        eq_iff key j,
      );
      seen_keys = r.seen_keys;
      cells = r.cells;
    }

pub Recovered-refused :
    (ms back : MeshStore) (key : String) (limit window logged now latency : ℕ)
    → Recovered ms back
    → ltb (value (counter_of ms.rate_limiters key)) limit ≡ false
    → Recovered (consume_key ms key limit window logged now latency).0 back
unfolding consume_key
Recovered-refused ms back key limit window logged now latency r refused = record {
  node_name = r.node_name;
  counts = λ j. ground (
    arith,
    refused,
    lookup-insert key j (counter_of ms.rate_limiters key) ms.rate_limiters,
    r.counts j,
    eq_iff key j,
  );
  seen_keys = r.seen_keys;
  cells = r.cells;
}

pub Recovered-seen :
    (ms back : MeshStore) (key : String) (logged latency : ℕ) (pe : PersistenceEngine)
    → Recovered ms back
    → Crdt.contains ms.replay_protection key ≡ false
    → Recovered
        (seen_key ms key logged latency).0
        (with_engine pe (apply_wal_entry back (logged_entry logged seen key none "" 0 "" 0)))
unfolding seen_key apply_wal_entry
Recovered-seen ms back key logged latency pe r new = record {
  node_name = ground (arith, new, r.node_name);
  counts = λ j. ground (arith, new, r.counts j);
  seen_keys = λ j. ground (
    arith,
    new,
    contains-add ms.replay_protection key j,
    contains-add back.replay_protection key j,
    r.seen_keys j,
  );
  cells = λ ns j. rw new (r.cells ns j);
}

pub Recovered-set :
    (ms back : MeshStore) (ns key : String) (v : Bytes) (ttl ts now logged latency : ℕ)
    (pe : PersistenceEngine)
    → Recovered ms back
    → ts ≤ logged
    → Recovered (set_key ms ns key v ttl ts now logged latency) (
        with_engine pe (
          apply_wal_entry back (
            logged_entry logged set key
              (some v)
              ns
              (if ltb 0 ttl then milli (now + ttl) else 0)
              ms.node_name
              0)))
unfolding set_key apply_wal_entry stored_value
Recovered-set ms back ns key v ttl ts now logged latency pe r h = record {
  node_name = r.node_name;
  counts = r.counts;
  seen_keys = r.seen_keys;
  cells = λ n j. ground (
    arith,
    lookup_in-insert_in ns key n j
        (record {
          value = v;
          expires_at = if ltb 0 ttl then some (now + ttl) else none;
          timestamp = ts;
          node = ms.node_name;
        })
        ms.cache,
    lookup_in-insert_in ns key n j
        (record {
          value = to_valid_utf8 v;
          expires_at = expiry_of (if ltb 0 ttl then milli (now + ttl) else 0);
          timestamp = logged;
          node = ms.node_name;
        })
        back.cache,
    r.cells n j,
  );
}

pub Recovered-replay :
    (ms back : MeshStore) (key : String) (logged latency : ℕ)
    → Recovered ms back
    → Crdt.contains ms.replay_protection key ≡ true
    → Recovered (seen_key ms key logged latency).0 back
unfolding seen_key
Recovered-replay ms back key logged latency r old = record {
  node_name = ground (arith, old, r.node_name);
  counts = λ j. ground (arith, old, r.counts j);
  seen_keys = λ j. ground (arith, old, r.seen_keys j);
  cells = λ ns j. rw old (r.cells ns j);
}
