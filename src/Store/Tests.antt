-- ===== src/Store/Tests.antt =====
-- The theorems on the store, each on a small store.
use toll_mesh_store.Common.{
  ℕ, ◌≡◌, refl, ap, Version, Bool-cases, inl, inr, String, str_eq, none, List, [], ◌∷◌, lookup,
  lookup_in, UniqueIn, arith,
}
use toll_mesh_store.Core.Crdt.{GCounter}
use toll_mesh_store.Core.Crdt
use toll_mesh_store.Metrics
use toll_mesh_store.Persistence.{new_persistence_engine}
use toll_mesh_store.Store.{MeshStore, new_mesh_store}
use toll_mesh_store.Store.Gossip.{
  state_of, merge_state, copy_cache, copy_values, copy_ttls, copy_timestamps, copy_nodes,
  peer_entry,
}
use toll_mesh_store.Store.Gossip.Converge.{merge_state_converges, merge_state_any_order, written}
use toll_mesh_store.Store.Limiter.{Call}
use toll_mesh_store.Store.Recovery.{Recovered, LocalOp, consumes, sees, sets, run, replayed}
use toll_mesh_store.Store.Recovery.Restart.{restart_recovers}
use toll_mesh_store.Store.Snapshots.{
  create_snapshot, recover_from_disk, recovered, rotate, write_snapshot, copy_state,
}
use toll_mesh_store.Store.Snapshots.Roundtrip.{Holds, CountersValid, create_snapshot_roundtrip}
use toll_mesh_store.Store.Snapshots.Loss.{writes_before_rotation_lost}

abbrev start : MeshStore
start = new_mesh_store "a" new_persistence_engine

abbrev session : List LocalOp
session = consumes "k" 2 0 5 5 0 ∷ sees "r" 6 0 ∷ sets "n" "x" (104 ∷ 255 ∷ []) 0 7 7 8 0 ∷ []

abbrev lived : MeshStore
lived = run start session

restart_recovers_example : Recovered lived (replayed lived.node_name lived.persistence)
restart_recovers_example =
    restart_recovers "a" session (omega arith, (omega arith, ((omega arith, omega arith), tt)))

-- A store with one cell and one counter.
abbrev holding : String → List ℕ → ℕ → MeshStore
holding name v ts = record {
  node_name = name;
  rate_limiters = ("k", record { counts = (name, 1) ∷ [] }) ∷ [];
  replay_protection = record { items = ("r", tt) ∷ [] };
  cache =
      ("n", ("x", record { value = v; expires_at = none; timestamp = ts; node = name }) ∷ []) ∷ [];
  persistence = new_persistence_engine;
  metrics = Metrics.new_metrics;
  cluster_metrics = [];
}

abbrev left : MeshStore
left = holding "a" (1 ∷ []) 5

abbrev right : MeshStore
right = holding "b" (2 ∷ []) 6

other_version : ◌≡◌ {A = Version} (5, "a") (6, "b") → ⊥
other_version h = let e : 5 ≡ 6 = ap (λ (v : Version). v.0) h in omega (arith, e)

holding-UniqueIn : (name : String) (v : List ℕ) (ts : ℕ) → UniqueIn (holding name v ts).cache
unfolding lookup
holding-UniqueIn name v ts = (refl, (refl, tt), tt)

merge_state_converges_example :
    written (lookup_in "n" "x" (merge_state left (state_of right) 9).cache)
    ≡ written (lookup_in "n" "x" (merge_state right (state_of left) 9).cache)
unfolding lookup_in lookup
merge_state_converges_example =
    merge_state_converges left right 9 9 "n" "x" (holding-UniqueIn "a" (1 ∷ []) 5)
      (holding-UniqueIn "b" (2 ∷ []) 6) (λ h. absurd (other_version h))

abbrev calls : List Call
calls =
    record { key = "k"; limit = 2; window = 0; logged = 5; now = 5; latency = 0 }
    ∷ record { key = "k"; limit = 2; window = 0; logged = 6; now = 6; latency = 0 }
    ∷ record { key = "k"; limit = 2; window = 0; logged = 7; now = 7; latency = 0 }
    ∷ []

merge_state_any_order_example :
    (lookup_in "n" "x" (merge_state (merge_state start (state_of left) 9) (state_of right) 9).cache
      ≡ lookup_in "n" "x"
          (merge_state (merge_state start (state_of right) 9) (state_of left) 9).cache)
    × (lookup_in "n" "x" (merge_state (merge_state start (state_of left) 9) (state_of left) 9).cache
        ≡ lookup_in "n" "x" (merge_state start (state_of left) 9).cache)
unfolding lookup_in lookup state_of copy_cache copy_values copy_ttls copy_timestamps copy_nodes
    peer_entry
merge_state_any_order_example =
    merge_state_any_order start (state_of left) (state_of right) 9 9 9 "n" "x"
      (refl, (refl, tt), tt) (refl, (refl, tt), tt) (λ h. absurd (other_version h))

left-Valid : CountersValid left.rate_limiters
unfolding lookup Crdt.new_g_counter
left-Valid key = elim (Bool-cases (str_eq "k" key)) [ inl h ↦ rw h (refl, tt) | inr h ↦ rw h tt ]

create_snapshot_roundtrip_example :
    (back : MeshStore) × (recover_from_disk
        (new_mesh_store "a" (create_snapshot left 9).persistence)
      ≡ recovered back)
    × Holds left back
create_snapshot_roundtrip_example =
    create_snapshot_roundtrip left "a" 9 (holding-UniqueIn "a" (1 ∷ []) 5) left-Valid

writes_before_rotation_lost_example :
    (back : MeshStore) × (recover_from_disk (
        new_mesh_store "a"
          (rotate (run (write_snapshot left (copy_state left) 9) session)).persistence)
      ≡ recovered back)
    × Holds left back
writes_before_rotation_lost_example =
    writes_before_rotation_lost left "a" 9 session (holding-UniqueIn "a" (1 ∷ []) 5) left-Valid
