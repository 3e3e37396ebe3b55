-- ===== src/Core/Crdt.antt =====
-- core/crdt.go: the grow-only counter, the grow-only set, and the set whose items expire. Each
-- method holds the value's lock, so it is one step. Node names and items are strings, counts are
-- unbounded, and a time is a number of nanoseconds that the call takes as `now`.
pub mod Counter
pub mod Copies
pub mod Sets
pub mod Tests
use toll_mesh_store.Common.{
  ℕ, ◌+◌, String, Map, lookup, insert, erase, Option, none, some, Bool, true, false, List, ◌∷◌, ltb,
  is_some, if◌then◌else◌, [],
}

pub record GCounter : Type 0 where
  pub counts : Map ℕ

unfoldable pub new_g_counter : GCounter
new_g_counter = record { counts = [] }

-- `g.counts[nodeID]`, where a missing key reads as 0.
abbrev pub or_zero : Option ℕ → ℕ
or_zero none = 0
or_zero (some c) = c

unfoldable pub count_of : GCounter → String → ℕ
count_of g node = or_zero (lookup node g.counts)

unfoldable pub increment : GCounter → String → GCounter
unfolding count_of
increment g node = record { counts = insert node (count_of g node + 1) g.counts }

unfoldable pub sum_counts : ℕ → Map ℕ → ℕ
sum_counts total [] = total
sum_counts total ((node, count) ∷ rest) = sum_counts (total + count) rest

unfoldable pub value : GCounter → ℕ
unfolding sum_counts
value g = sum_counts 0 g.counts

-- The loop of `maps.Copy`, and of `RestoreGCounter`.
unfoldable pub copy_into {ℓ} : {V : Type ℓ} → Map V → Map V → Map V
copy_into out [] = out
copy_into out ((k, v) ∷ rest) = copy_into (insert k v out) rest

unfoldable pub snapshot : GCounter → Map ℕ
unfolding copy_into
snapshot g = copy_into [] g.counts

unfoldable pub restore_g_counter : Map ℕ → GCounter
unfolding copy_into
restore_g_counter counts = record { counts = copy_into [] counts }

-- The test of `Merge`: the key is new, or the other count is larger.
unfoldable pub merge_wins : Option ℕ → ℕ → Bool
merge_wins none count = true
merge_wins (some current) count = ltb current count

unfoldable pub merge_counts : Map ℕ → Map ℕ → Map ℕ
unfolding merge_wins
merge_counts g [] = g
merge_counts g ((node, count) ∷ rest) =
    merge_counts (if merge_wins (lookup node g) count then insert node count g else g) rest

unfoldable pub merge : GCounter → GCounter → GCounter
unfolding merge_counts
merge g other = record { counts = merge_counts g.counts other.counts }

pub record GSet : Type 0 where
  pub items : Map (Unit {0})

unfoldable pub new_g_set : GSet
new_g_set = record { items = [] }

unfoldable pub add : GSet → String → GSet
add g item = record { items = insert item tt g.items }

unfoldable pub contains : GSet → String → Bool
contains g item = is_some (lookup item g.items)

-- The keys in the order of the list, which is one of those that `range` may take.
unfoldable pub keys {ℓ} : {V : Type ℓ} → Map V → List String
keys [] = []
keys ((k, v) ∷ rest) = k ∷ keys rest

unfoldable pub snapshot_set : GSet → List String
unfolding keys
snapshot_set g = keys g.items

unfoldable pub add_all : Map (Unit {0}) → List String → Map (Unit {0})
add_all items [] = items
add_all items (item ∷ rest) = add_all (insert item tt items) rest

unfoldable pub restore_g_set : List String → GSet
unfolding add_all
restore_g_set items = record { items = add_all [] items }

unfoldable pub merge_set : GSet → GSet → GSet
unfolding add_all keys
merge_set g other = record { items = add_all g.items (keys other.items) }

pub record ExpiringSet : Type 0 where
  pub expiries : Map ℕ

unfoldable pub add_expiring : ExpiringSet → String → ℕ → ℕ → ExpiringSet
add_expiring es item ttl now = record { expiries = insert item (now + ttl) es.expiries }

-- `exists && time.Now().Before(expiry)`.
unfoldable pub live_at : ℕ → Option ℕ → Bool
live_at now none = false
live_at now (some expiry) = ltb now expiry

unfoldable pub contains_expiring : ExpiringSet → String → ℕ → Bool
unfolding live_at
contains_expiring es item now = live_at now (lookup item es.expiries)

-- One round of the loop of `cleanup`: what has expired goes. The map is walked while it shrinks,
-- which Go allows.
unfoldable pub drop_expired : ℕ → Map ℕ → Map ℕ → Map ℕ
drop_expired now [] kept = kept
drop_expired now ((item, expiry) ∷ rest) kept =
    drop_expired now rest (if ltb expiry now then erase item kept else kept)

unfoldable pub cleanup : ExpiringSet → ℕ → ExpiringSet
unfolding drop_expired
cleanup es now = record { expiries = drop_expired now es.expiries es.expiries }
