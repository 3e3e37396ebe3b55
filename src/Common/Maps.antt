-- ===== src/Common/Maps.antt =====
-- Go maps with string keys, as association lists. The order of the list stands for the order in
-- which `range` happens to visit the keys, which Go leaves open.
use Prim.Native.Nat.{◌+◌, ◌≤◌}
use Prim.Native.String.{String}
use mathlib.Core.Path.{◌≡◌, refl}
use mathlib.Core.Logic.{◌≢◌}
use mathlib.Core.Bool.{◌&&◌}
use mathlib.Core.Option.{Option, none, some}
use mathlib.Core.List.{List, [], ◌∷◌}
use native.Mathlib.Omega.{arith}
use text.Mathlib.Text.{◌==◌}
use text.Mathlib.TextEquality.{eq_iff}
use Prim.Native.Nat.{◌+◌, ◌≤◌}
use toll_mesh_store.Common.Lists.{length}
use toll_mesh_store.Common.Tests.{is_some, if◌then◌else◌}

abbrev pub Map {ℓ} : Type ℓ → Type ℓ
Map V = List (String × V)

module _ {ℓ} {V : Type ℓ} where
  -- `v, ok := m[key]`.
  unfoldable pub lookup : String → Map V → Option V
  lookup key [] = none
  lookup key ((at, found) ∷ rest) = if at == key then some found else lookup key rest

  -- `delete(m, key)`.
  unfoldable pub erase : String → Map V → Map V
  erase key [] = []
  erase key ((at, found) ∷ rest) =
      let erased = erase key rest in if at == key then erased else (at, found) ∷ erased

  -- `m[key] = value`, in the place that the key had.
  unfoldable pub insert : String → V → Map V → Map V
  insert key value [] = (key, value) ∷ []
  insert key value ((at, found) ∷ rest) =
      if at == key then (key, value) ∷ rest else (at, found) ∷ insert key value rest

  -- A Go map holds a key once.
  abbrev pub Unique : Map V → Type ℓ
  Unique [] = Unit
  Unique ((at, found) ∷ rest) = (lookup at rest ≡ none) × Unique rest

  -- A read after a write.
  pub lookup-insert :
      (key other : String) (value : V) (m : Map V)
      → lookup other (insert key value m) ≡ (if key == other then some value else lookup other m)
  unfolding insert lookup
  lookup-insert key other value [] = ground arith
  lookup-insert key other value ((at, found) ∷ rest) =
      ground (
        arith,
        lookup-insert key other value rest,
        eq_iff at key,
        eq_iff key other,
        eq_iff at other,
      )

  pub lookup-insert_self : (k : String) (v : V) (m : Map V) → lookup k (insert k v m) ≡ some v
  lookup-insert_self k v m = ground (arith, lookup-insert k k v m, eq_iff k k)

  pub lookup-insert_ne :
      (k j : String) (v : V) (m : Map V) → k ≢ j → lookup j (insert k v m) ≡ lookup j m
  lookup-insert_ne k j v m h = ground (arith, lookup-insert k j v m, eq_iff k j)

  pub lookup-erase :
      (k j : String) (m : Map V) → lookup j (erase k m) ≡ (if k == j then none else lookup j m)
  unfolding lookup erase
  lookup-erase k j [] = ground arith
  lookup-erase k j ((i, w) ∷ m) =
      ground (arith, eq_iff k j, eq_iff i k, eq_iff i j, lookup-erase k j m)

  pub insert-Unique : (k : String) (v : V) (m : Map V) → Unique m → Unique (insert k v m)
  unfolding lookup insert
  insert-Unique k v [] u = (refl, tt)
  insert-Unique k v ((i, w) ∷ m) u =
      ground (arith, eq_iff i k, eq_iff k i, lookup-insert k i v m, insert-Unique k v m u.1)

  pub erase-Unique : (k : String) (m : Map V) → Unique m → Unique (erase k m)
  unfolding lookup erase
  erase-Unique k [] u = tt
  erase-Unique k ((i, w) ∷ m) u =
      ground (arith, eq_iff i k, eq_iff k i, lookup-erase k i m, erase-Unique k m u.1)

-- A map of maps: each outer key once, and each key once under it.
module _ {ℓ} {V : Type ℓ} where
  abbrev pub or_empty : Option (Map V) → Map V
  or_empty none = []
  or_empty (some m) = m

  -- A read and a write of one cell, whose inner map is made where it is missing.
  unfoldable pub lookup_in : String → String → Map (Map V) → Option V
  lookup_in ns key m = lookup key (or_empty (lookup ns m))

  unfoldable pub insert_in : String → String → V → Map (Map V) → Map (Map V)
  insert_in ns key v m = insert ns (insert key v (or_empty (lookup ns m))) m

  abbrev pub UniqueIn : Map (Map V) → Type ℓ
  UniqueIn [] = Unit
  UniqueIn ((ns, kv) ∷ m) = (lookup ns m ≡ none) × Unique kv × UniqueIn m

  pub UniqueIn-keys : (ns : String) (m : Map (Map V)) → UniqueIn m → Unique (or_empty (lookup ns m))
  unfolding lookup
  UniqueIn-keys ns [] u = tt
  UniqueIn-keys ns ((n, kv) ∷ m) u = ground (arith, UniqueIn-keys ns m u.2)

  pub insert-UniqueIn :
      (ns : String) (kv : Map V) (m : Map (Map V))
      → Unique kv
      → UniqueIn m
      → UniqueIn (insert ns kv m)
  unfolding lookup insert
  insert-UniqueIn ns kv [] u v = (refl, u, tt)
  insert-UniqueIn ns kv ((n, old) ∷ m) u v =
      ground
        (arith, eq_iff n ns, eq_iff ns n, lookup-insert ns n kv m, insert-UniqueIn ns kv m u v.2)

  pub insert_in-UniqueIn :
      (ns key : String) (v : V) (m : Map (Map V)) → UniqueIn m → UniqueIn (insert_in ns key v m)
  unfolding insert_in
  insert_in-UniqueIn ns key v m u =
      insert-UniqueIn ns (insert key v (or_empty (lookup ns m))) m
        (insert-Unique key v (or_empty (lookup ns m)) (UniqueIn-keys ns m u)) u

  pub lookup_in-insert_in :
      (ns key ns' key' : String) (v : V) (m : Map (Map V))
      → lookup_in ns' key' (insert_in ns key v m)
        ≡ (if ns == ns' && key == key' then some v else lookup_in ns' key' m)
  unfolding lookup_in insert_in
  lookup_in-insert_in ns key ns' key' v m = ground (
    arith,
    lookup-insert ns ns' (insert key v (or_empty (lookup ns m))) m,
    lookup-insert key key' v (or_empty (lookup ns m)),
    eq_iff ns ns',
  )

-- The number of keys.
module _ {ℓ} {V : Type ℓ} where
  pub length-insert :
      (k : String) (v : V) (m : Map V)
      → length (insert k v m) ≡ (if is_some (lookup k m) then length m else length m + 1)
  unfolding insert lookup
  length-insert k v [] = omega arith
  length-insert k v ((j, w) ∷ m) = ground (arith, length-insert k v m)

  pub length-erase-le : (k : String) (m : Map V) → length (erase k m) ≤ length m
  unfolding erase
  length-erase-le k [] = omega arith
  length-erase-le k ((j, w) ∷ m) = ground (arith, length-erase-le k m)
