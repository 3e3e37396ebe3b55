-- ===== src/Core/Crdt/Tests.antt =====
-- The theorems on the counters and the sets, each on small ones.
use toll_mesh_store.Common.{◌≡◌, refl, [], ◌∷◌, lookup}
use toll_mesh_store.Core.Crdt.{GCounter, merge, GSet, ExpiringSet}
use toll_mesh_store.Core.Crdt.Counter.{IsValid, merge_semilattice}

abbrev left : GCounter
left = record { counts = ("a", 2) ∷ ("b", 1) ∷ [] }

abbrev right : GCounter
right = record { counts = ("b", 4) ∷ [] }

left-IsValid : IsValid left
unfolding lookup
left-IsValid = (refl, (refl, tt))

right-IsValid : IsValid right
unfolding lookup
right-IsValid = (refl, tt)

merge_semilattice_example :
    (lookup "b" (merge left right).counts ≡ lookup "b" (merge right left).counts)
    × (lookup "b" (merge (merge left right) right).counts
        ≡ lookup "b" (merge left (merge right right)).counts)
    × (lookup "b" (merge left left).counts ≡ lookup "b" left.counts)
merge_semilattice_example =
    merge_semilattice left right right "b" left-IsValid right-IsValid right-IsValid

abbrev seen : GSet
seen = record { items = ("r", tt) ∷ [] }

abbrev also : GSet
also = record { items = ("q", tt) ∷ [] }

abbrev expiring : ExpiringSet
expiring = record { expiries = ("old", 3) ∷ ("new", 9) ∷ [] }
