-- ===== src/Core/Crdt/Copies.antt =====
-- Copies of a counter: its snapshot, and the counter that is restored from one.
use toll_mesh_store.Common.{
  ◌∙◌, ℕ, ◌≡◌, refl, String, Map, lookup, insert, Unique, lookup-insert, insert-Unique, eq_iff,
  Option, none, some, [], ◌∷◌, arith,
}
use toll_mesh_store.Core.Crdt.{GCounter, count_of, value, copy_into, snapshot, restore_g_counter}
use toll_mesh_store.Core.Crdt.Counter.{IsValid, value_of_same}

-- The first value, or else the second.
abbrev pub or_else {ℓ} : {V : Type ℓ} → Option V → Option V → Option V
or_else none b = b
or_else (some a) b = some a

pub lookup-copy_into {ℓ} :
    {V : Type ℓ} (out m : Map V) (k : String)
    → Unique m
    → lookup k (copy_into out m) ≡ or_else (lookup k m) (lookup k out)
unfolding copy_into lookup
lookup-copy_into out [] k u = refl
lookup-copy_into out ((j, v) ∷ rest) k u =
    ground
      (arith, lookup-copy_into (insert j v out) rest k u.1, lookup-insert j k v out, eq_iff j k)

lookup-nil {ℓ} : {V : Type ℓ} (k : String) → lookup {V = V} k [] ≡ none
unfolding lookup
lookup-nil k = refl

copy_into-Unique {ℓ} : {V : Type ℓ} (out m : Map V) → Unique out → Unique (copy_into out m)
unfolding copy_into
copy_into-Unique out [] u = u
copy_into-Unique out ((j, v) ∷ rest) u =
    copy_into-Unique (insert j v out) rest (insert-Unique j v out u)

-- A copy into an empty map holds the same.
pub lookup-copy {ℓ} :
    {V : Type ℓ} (m : Map V) (k : String) → Unique m → lookup k (copy_into [] m) ≡ lookup k m
lookup-copy {V} m k u = ground (arith, lookup-copy_into [] m k u, lookup-nil {V = V} k)

pub copy-Unique {ℓ} : {V : Type ℓ} (m : Map V) → Unique m → Unique (copy_into [] m)
copy-Unique m u = copy_into-Unique [] m tt

pub snapshot-Unique : (g : GCounter) → IsValid g → Unique (snapshot g)
unfolding snapshot
snapshot-Unique g u = copy-Unique g.counts u

pub restore-IsValid : (m : Map ℕ) → Unique m → IsValid (restore_g_counter m)
unfolding restore_g_counter
restore-IsValid m u = copy-Unique m u

lookup-restore-snapshot :
    (g : GCounter) (node : String)
    → IsValid g
    → lookup node (restore_g_counter (snapshot g)).counts ≡ lookup node g.counts
unfolding restore_g_counter snapshot
lookup-restore-snapshot g node u =
    lookup-copy (copy_into [] g.counts) node (copy-Unique g.counts u) ∙ lookup-copy g.counts node u

-- A counter that is persisted and restored has every node's count back, and so its value.
pub restore-snapshot :
    (g : GCounter)
    → IsValid g
    → ((node : String) → count_of (restore_g_counter (snapshot g)) node ≡ count_of g node)
      × (value (restore_g_counter (snapshot g)) ≡ value g)
unfolding count_of
restore-snapshot g u =
    let same = λ (k : String). lookup-restore-snapshot g k u in
    (
      λ k. ground (arith, same k),
      value_of_same (restore_g_counter (snapshot g)) g
          (restore-IsValid (snapshot g) (snapshot-Unique g u)) u same,
    )

-- So does a counter that has gone through one copy more.
pub restore-copy-snapshot :
    (g : GCounter) → IsValid g → value (restore_g_counter (copy_into [] (snapshot g))) ≡ value g
unfolding restore_g_counter
restore-copy-snapshot g u =
    let s = snapshot-Unique g u in
    let r : GCounter = record { counts = copy_into [] (snapshot g) } in
    value_of_same (restore_g_counter (copy_into [] (snapshot g))) r
      (restore-IsValid (copy_into [] (snapshot g)) (copy-Unique (snapshot g) s))
      (copy-Unique (snapshot g) s)
      (λ k. lookup-copy (copy_into [] (snapshot g)) k (copy-Unique (snapshot g) s))
    ∙ (restore-snapshot g u).1
