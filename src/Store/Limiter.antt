-- ===== src/Store/Limiter.antt =====
-- The rate limiter and the replay protection.
use toll_mesh_store.Common.{
  ℕ, ◌+◌, ◌-◌, ◌≤◌, ◌≡◌, refl, String, lookup-insert, eq_iff, str_eq, ◌&&◌, ◌||◌, List, [], ◌∷◌,
  arith, ltb, if◌then◌else◌,
}
use toll_mesh_store.Core.Crdt.{GCounter, value}
use toll_mesh_store.Core.Crdt
use toll_mesh_store.Core.Crdt.Counter.{value-increment}
use toll_mesh_store.Core.Crdt.Sets.{contains-add}
use toll_mesh_store.Store.{MeshStore, counter_of, ConsumeResult, consume_key, seen_key}

-- The count that a node sees under a key.
abbrev pub used : MeshStore → String → ℕ
used ms key = value (counter_of ms.rate_limiters key)

-- A call is allowed just where the count is under the limit; then the count grows by one and what
-- remains is the limit less the new count, and else the count stays and nothing remains. The count
-- of another key never changes.
pub used-consume_key :
    (ms : MeshStore) (key other : String) (limit window logged now latency : ℕ)
    → let (ms', r) = consume_key ms key limit window logged now latency in
      (r.allowed ≡ ltb (used ms key) limit)
      × (used ms' other
          ≡ (if str_eq key other && r.allowed then used ms key + 1 else used ms other))
      × (r.remaining ≡ (if r.allowed then limit - used ms' key else 0))
unfolding consume_key
used-consume_key ms key other limit window logged now latency =
    let counter = counter_of ms.rate_limiters key in
    let up = value-increment counter ms.node_name key in
    let counter' =
      if ltb (value counter) limit then Crdt.increment counter ms.node_name else counter in
    (
      refl,
      ground (arith, up.0, lookup-insert key other counter' ms.rate_limiters, eq_iff key other),
      ground (arith, up.0, lookup-insert key key counter' ms.rate_limiters, eq_iff key key),
    )

pub record Call : Type 0 where
  pub key : String
  pub limit : ℕ
  pub window : ℕ
  pub logged : ℕ
  pub now : ℕ
  pub latency : ℕ

pub call : MeshStore → Call → MeshStore × ConsumeResult
call ms c = consume_key ms c.key c.limit c.window c.logged c.now c.latency

-- The store after the calls, and how many of those on `key` were allowed.
pub run_calls : String → MeshStore → List Call → MeshStore × ℕ
run_calls key ms [] = (ms, 0)
run_calls key ms (c ∷ rest) =
    let (ms', r) = call ms c in
    let (last, granted) = run_calls key ms' rest in
    (last, if str_eq c.key key && r.allowed then granted + 1 else granted)

-- The calls on the key ask for no more than this limit.
abbrev pub Limited : String → ℕ → List Call → Type 0
Limited key limit [] = Unit
Limited key limit (c ∷ rest) = (c.key ≡ key → c.limit ≤ limit) × Limited key limit rest

-- `Seen` reports a key exactly where it was recorded before. Afterwards that key is recorded, and
-- of the others just those that were.
pub seen_key_lem :
    (ms : MeshStore) (key other : String) (logged latency : ℕ)
    → let (ms', replay) = seen_key ms key logged latency in
      (replay ≡ Crdt.contains ms.replay_protection key)
      × (Crdt.contains ms'.replay_protection other
          ≡ (str_eq key other || Crdt.contains ms.replay_protection other))
unfolding seen_key
seen_key_lem ms key other logged latency =
    (ground arith, ground (arith, contains-add ms.replay_protection key other, eq_iff key other))
