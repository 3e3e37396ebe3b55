-- ===== src/Core/Crdt/Sets.antt =====
-- The grow-only set and the set whose items expire.
use toll_mesh_store.Common.{
  ℕ, ◌+◌, ◌≤◌, ◌≡◌, refl, String, Map, lookup, insert, erase, Unique, lookup-insert, lookup-erase,
  eq_iff, str_eq, Option, none, some, Bool, false, ◌||◌, [], ◌∷◌, arith, ltb, if◌then◌else◌,
}
use toll_mesh_store.Core.Crdt.{
  GSet, add, contains, keys, snapshot_set, add_all, restore_g_set, merge_set, ExpiringSet,
  add_expiring, contains_expiring, drop_expired, cleanup,
}

abbrev has : String → Map (Unit {0}) → Bool
has k m = contains (record { items = m }) k

has-add_all-keys :
    (items other : Map (Unit {0})) (k : String)
    → has k (add_all items (keys other)) ≡ (has k items || has k other)
unfolding add_all keys contains lookup
has-add_all-keys items [] k = ground arith
has-add_all-keys items ((j, v) ∷ rest) k =
    ground (arith, has-add_all-keys (insert j tt items) rest k, lookup-insert j k tt items)

-- The merged set has exactly the items of the two sets, so no replay that either node has seen is
-- forgotten.
pub contains-merge_set :
    (g other : GSet) (k : String)
    → contains (merge_set g other) k ≡ (contains g k || contains other k)
unfolding merge_set
contains-merge_set g other k = has-add_all-keys g.items other.items k

-- After an `Add` the set has the new item and what it had, and nothing else.
pub contains-add :
    (g : GSet) (item k : String) → contains (add g item) k ≡ (str_eq item k || contains g k)
unfolding contains add
contains-add g item k = ground (arith, lookup-insert item k tt g.items)

-- A set that is persisted and restored has the same items.
pub restore-snapshot_set :
    (g : GSet) (k : String) → contains (restore_g_set (snapshot_set g)) k ≡ contains g k
unfolding restore_g_set snapshot_set contains lookup
restore-snapshot_set g k = ground (arith, has-add_all-keys [] g.items k)

-- Whether a round of cleanup at `now` drops an item with this expiry.
abbrev pub gone : ℕ → Option ℕ → Bool
gone now none = false
gone now (some e) = ltb e now

lookup-drop_expired :
    (now : ℕ) (m kept : Map ℕ) (k : String)
    → Unique m
    → lookup k (drop_expired now m kept) ≡ (if gone now (lookup k m) then none else lookup k kept)
unfolding drop_expired lookup
lookup-drop_expired now [] kept k u = refl
lookup-drop_expired now ((j, e) ∷ rest) kept k u = ground (
  arith,
  lookup-drop_expired now rest (if ltb e now then erase j kept else kept) k u.1,
  lookup-erase j k kept,
  eq_iff j k,
)

-- A cleanup at `now` drops exactly the items whose expiry has passed, and no later question is
-- answered otherwise than without it.
pub contains-cleanup :
    (es : ExpiringSet) (now later : ℕ) (k : String)
    → Unique es.expiries
    → now ≤ later
    → (lookup k (cleanup es now).expiries
        ≡ (if gone now (lookup k es.expiries) then none else lookup k es.expiries))
      × (contains_expiring (cleanup es now) k later ≡ contains_expiring es k later)
unfolding cleanup contains_expiring
contains-cleanup es now later k u h =
    let e = lookup-drop_expired now es.expiries es.expiries k u in (e, ground (arith, e))

-- An item is in the set until its time to live has passed, and other items are left as they were.
pub contains-add_expiring :
    (es : ExpiringSet) (item k : String) (ttl now later : ℕ)
    → contains_expiring (add_expiring es item ttl now) k later
      ≡ (if str_eq item k then ltb later (now + ttl) else contains_expiring es k later)
unfolding add_expiring contains_expiring
contains-add_expiring es item k ttl now later =
    ground (arith, lookup-insert item k (now + ttl) es.expiries)
