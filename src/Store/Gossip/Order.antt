-- ===== src/Store/Gossip/Order.antt =====
-- The order of the cache's versions, and the choice of the newer of two entries.
use toll_mesh_store.Common.{
  ℕ, ◌≡◌, refl, String, Option, none, some, true, false, arith, Version, version_ltb,
  version_ltb_irrefl, version_ltb_asym, version_ltb_total, version_ltb_trans,
  version_ltb-false_trans, if◌then◌else◌,
}
use toll_mesh_store.Store.{CacheEntry, cache_entry_less}

abbrev pub version_of : CacheEntry → Version
version_of e = (e.timestamp, e.node)

pub cache_entry_less-eq :
    (s : ℕ) (m : String) (t : ℕ) (n : String) → cache_entry_less s m t n ≡ version_ltb (s, m) (t, n)
unfolding cache_entry_less version_ltb
cache_entry_less-eq s m t n = ground arith

-- The version order is strict and total: no version is before itself, two that are not before one
-- another are the same, and the order is transitive.
pub cache_entry_less_order :
    (a b c : ℕ × String)
    → (cache_entry_less a.0 a.1 a.0 a.1 ≡ false)
      × (cache_entry_less a.0 a.1 b.0 b.1 ≡ false
          → cache_entry_less b.0 b.1 a.0 a.1 ≡ false
          → a ≡ b)
      × (cache_entry_less a.0 a.1 b.0 b.1 ≡ true
          → cache_entry_less b.0 b.1 c.0 c.1 ≡ true
          → cache_entry_less a.0 a.1 c.0 c.1 ≡ true)
cache_entry_less_order a b c = (
  rw (cache_entry_less-eq a.0 a.1 a.0 a.1) (version_ltb_irrefl a),
  λ p q. version_ltb_total a b (rw cache_entry_less-eq at p) (rw cache_entry_less-eq at q),
  λ p q.
      rw (cache_entry_less-eq a.0 a.1 c.0 c.1)
        (version_ltb_trans a b c (rw cache_entry_less-eq at p) (rw cache_entry_less-eq at q)),
)

-- What a merge leaves in a cell: the peer's entry only if it is strictly newer.
unfoldable pub newer : Option CacheEntry → Option CacheEntry → Option CacheEntry
newer none b = b
newer (some a) none = some a
newer (some a) (some b) = if version_ltb (version_of a) (version_of b) then some b else some a

pub newer_idem : (a : Option CacheEntry) → newer a a ≡ a
unfolding newer
newer_idem none = refl
newer_idem (some a) = ground arith

pub newer_assoc : (a b c : Option CacheEntry) → newer (newer a b) c ≡ newer a (newer b c)
unfolding newer
newer_assoc none b c = refl
newer_assoc (some a) none c = refl
newer_assoc (some a) (some b) none = ground arith
newer_assoc (some a) (some b) (some c) = ground (
  arith,
  version_ltb_trans (version_of a) (version_of b) (version_of c),
  version_ltb-false_trans (version_of a) (version_of b) (version_of c),
)

-- Entries of one version are one write.
abbrev pub SameWrite : Option CacheEntry → Option CacheEntry → Type 0
SameWrite none b = Unit
SameWrite (some a) none = Unit
SameWrite (some a) (some b) = version_of a ≡ version_of b → a ≡ b

pub newer_comm : (a b : Option CacheEntry) → SameWrite a b → newer a b ≡ newer b a
unfolding newer
newer_comm none none s = refl
newer_comm none (some b) s = refl
newer_comm (some a) none s = refl
newer_comm (some a) (some b) s = ground (
  arith,
  version_ltb_asym (version_of a) (version_of b),
  version_ltb_total (version_of a) (version_of b),
  s,
)
