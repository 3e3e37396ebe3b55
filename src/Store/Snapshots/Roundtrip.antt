-- ===== src/Store/Snapshots/Roundtrip.antt =====
-- A snapshot that nothing interrupts gives the store back.
use mathlib.Core.Option
use toll_mesh_store.Common.{
  ℕ, ◌≡◌, refl, ◌∙◌, String, Map, Bytes, lookup, lookup_in, UniqueIn, Option, none, some, [], ◌∷◌,
  arith, eq_iff, keep,
}
use toll_mesh_store.Core.Crdt.{GCounter, value}
use toll_mesh_store.Core.Crdt
use toll_mesh_store.Core.Crdt.Counter
use toll_mesh_store.Core.Crdt.Copies
use toll_mesh_store.Core.Crdt.Sets.{restore-snapshot_set}
use toll_mesh_store.Persistence.{Snapshot, replay_wal, rotate_wal, loaded, load_latest_snapshot}
use toll_mesh_store.Persistence.Log.{load-create_snapshot}
use toll_mesh_store.Store.{MeshStore, new_mesh_store, counter_of, or_new, apply_wal}
use toll_mesh_store.Store.Gossip.{
  state_of, peer_entry, copy_values, copy_cache, stamp_local_metrics,
}
use toll_mesh_store.Store.Gossip.Converge.{cell_of, cell_of-state_of, on_wire}
use toll_mesh_store.Store.Snapshots.{
  snapshot_limiters, restore_limiters, copy_state, restore_entry, restore_namespace, restore_cache,
  apply_snapshot, write_snapshot, rotate, create_snapshot, recovered, recover_from_disk,
}

lookup-restore_namespace :
    (snap : Snapshot) (ns key : String) (kv : Map Bytes)
    → lookup key (restore_namespace snap ns kv)
      ≡ Option.map (restore_entry snap ns key) (lookup key kv)
unfolding restore_namespace lookup
lookup-restore_namespace snap ns key [] = refl
lookup-restore_namespace snap ns key ((j, v) ∷ rest) =
    ground (arith, lookup-restore_namespace snap ns key rest, eq_iff j key)

lookup_in-restore_cache :
    (snap : Snapshot) (ns key : String) (m : Map (Map Bytes))
    → lookup_in ns key (restore_cache snap m)
      ≡ Option.map (restore_entry snap ns key) (lookup_in ns key m)
unfolding restore_cache lookup_in lookup
lookup_in-restore_cache snap ns key [] = refl
lookup_in-restore_cache snap ns key ((n, kv) ∷ rest) = ground (
  arith,
  lookup_in-restore_cache snap ns key rest,
  lookup-restore_namespace snap ns key kv,
  eq_iff n ns,
)

-- A snapshot of the store and its gossip state read alike, cell by cell.
restored_cell :
    (ms : MeshStore) (now : ℕ) (ns key : String)
    → let snap = record (copy_state ms) { timestamp = now; format_version = 1 } in
      lookup_in ns key (restore_cache snap snap.cache) ≡ cell_of (state_of ms) ns key
unfolding copy_state state_of restore_entry peer_entry
restored_cell ms now ns key =
    let snap = record (copy_state ms) { timestamp = now; format_version = 1 } in
    ground (arith, lookup_in-restore_cache snap ns key (copy_cache copy_values ms.cache))

-- Each counter holds each node once.
abbrev pub CountersValid : Map GCounter → Type 0
CountersValid limiters = (key : String) → Counter.IsValid (counter_of limiters key)

restored_limiters :
    (limiters : Map GCounter) (key : String)
    → lookup key (restore_limiters (snapshot_limiters limiters))
      ≡ Option.map
          (λ (g : GCounter). Crdt.restore_g_counter (Crdt.copy_into [] (Crdt.snapshot g)))
          (lookup key limiters)
unfolding restore_limiters snapshot_limiters lookup
restored_limiters [] key = refl
restored_limiters ((j, g) ∷ rest) key = ground (arith, restored_limiters rest key)

restored_count :
    (limiters : Map GCounter) (key : String) (o : Option GCounter)
    → lookup key limiters ≡ o
    → Counter.IsValid (or_new o)
    → value (counter_of (restore_limiters (snapshot_limiters limiters)) key) ≡ value (or_new o)
restored_count limiters key none h v = ground (arith, restored_limiters limiters key)
restored_count limiters key (some g) h v =
    ground (arith, restored_limiters limiters key, Copies.restore-copy-snapshot g v)

-- What a snapshot that was taken of a store holds of it.
pub record Holds (ms back : MeshStore) : Type 0 where
  pub counts :
      (key : String)
      → value (counter_of back.rate_limiters key) ≡ value (counter_of ms.rate_limiters key)
  pub seen_keys :
      (key : String)
      → Crdt.contains back.replay_protection key ≡ Crdt.contains ms.replay_protection key
  pub cells : (ns key : String) → lookup_in ns key back.cache ≡ on_wire (lookup_in ns key ms.cache)

pub apply_snapshot-Holds :
    (ms fresh : MeshStore) (now : ℕ)
    → UniqueIn ms.cache
    → CountersValid ms.rate_limiters
    → Holds ms
        (apply_snapshot fresh (record (copy_state ms) { timestamp = now; format_version = 1 }))
unfolding apply_snapshot copy_state
apply_snapshot-Holds ms fresh now u v = record {
  counts = λ key. restored_count ms.rate_limiters key (lookup key ms.rate_limiters) refl (v key);
  seen_keys = λ key. restore-snapshot_set ms.replay_protection key;
  cells = λ ns key. restored_cell ms now ns key ∙ cell_of-state_of ms ns key u;
}

pub recover_loaded :
    (fresh : MeshStore) (snap : Snapshot)
    → load_latest_snapshot fresh.persistence ≡ loaded snap
    → replay_wal fresh.persistence snap.timestamp ≡ []
    → recover_from_disk fresh ≡ recovered (apply_snapshot fresh snap)
unfolding recover_from_disk apply_wal
recover_loaded fresh snap e r = ground (arith, e, r)

stamped-Holds : (ms back : MeshStore) → Holds (stamp_local_metrics ms) back → Holds ms back
unfolding stamp_local_metrics
stamped-Holds ms back h = record { counts = h.counts; seen_keys = h.seen_keys; cells = h.cells }

-- A store that takes a snapshot with no call in between, and is then restarted, comes back with
-- every rate limit count, every key that was seen, and every cell of the cache but for the part of
-- its expiry below a millisecond.
pub create_snapshot_roundtrip :
    (ms : MeshStore) (name : String) (now : ℕ)
    → UniqueIn ms.cache
    → CountersValid ms.rate_limiters
    → (back : MeshStore) × (recover_from_disk
          (new_mesh_store name (create_snapshot ms now).persistence)
        ≡ recovered back)
      × Holds ms back
unfolding create_snapshot write_snapshot rotate new_mesh_store replay_wal rotate_wal keep
create_snapshot_roundtrip ms name now u v =
    let fresh = new_mesh_store name (create_snapshot ms now).persistence in
    let stamped = stamp_local_metrics ms in
    let snap = record (copy_state stamped) { timestamp = now; format_version = 1 } in
    (
      apply_snapshot fresh snap,
      recover_loaded fresh snap (load-create_snapshot stamped.persistence now (copy_state stamped))
          refl,
      stamped-Holds ms _ (
          apply_snapshot-Holds stamped fresh now (unfold stamp_local_metrics in u)
            (unfold stamp_local_metrics in v)),
    )
