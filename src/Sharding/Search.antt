-- ===== src/Sharding/Search.antt =====
-- The binary search of the ring (search of core/sharding.go).
use toll_mesh_store.Common.{
  ℕ, zero, suc, ◌+◌, ◌/◌, ◌≡◌, ◌≤◌, ◌<◌, refl, true, false, ltb, leb, if◌then◌else◌, some, List, [],
  ◌∷◌, length, get_elem?, Above, Sorted, Bool-cases, inl, inr, arith,
}
use toll_mesh_store.Sharding.{Ring, or_last, reaches, search_from, wrap, search_ring}

abbrev pub key_at : List ℕ → ℕ → ℕ
key_at keys i = or_last (get_elem? keys i)

-- The keys before `r` are below the hash, and the others are not.
pub record Splits (keys : List ℕ) (hash r : ℕ) : Type 0 where
  pub inside : r ≤ length keys
  pub below : (i : ℕ) → i < r → key_at keys i < hash
  pub above : (i : ℕ) → r ≤ i → i < length keys → hash ≤ key_at keys i

Above-key_at :
    (x : ℕ) (keys : List ℕ) (i : ℕ) → Above ltb x keys → i < length keys → x ≤ key_at keys i
Above-key_at x [] i a h = elim h [ ]
Above-key_at x (y ∷ ys) zero a h = ground (arith, a.0)
Above-key_at x (y ∷ ys) (suc i) a h = Above-key_at x ys i a.1 (omega arith)

pub key_at_mono :
    (keys : List ℕ) (i j : ℕ)
    → Sorted ltb keys
    → i ≤ j
    → j < length keys
    → key_at keys i ≤ key_at keys j
key_at_mono [] i j s p h = elim h [ ]
key_at_mono (x ∷ xs) zero zero s p h = omega arith
key_at_mono (x ∷ xs) zero (suc j) s p h = Above-key_at x xs j s.0 (omega arith)
key_at_mono (x ∷ xs) (suc i) zero s p h = absurd (omega arith)
key_at_mono (x ∷ xs) (suc i) (suc j) s p h = key_at_mono xs i j s.1 (omega arith) (omega arith)

-- What the loop keeps: the keys before `lo` are below the hash, those from `hi` on are not.
record Inv (keys : List ℕ) (hash lo hi : ℕ) : Type 0 where
  ordered : lo ≤ hi
  inside : hi ≤ length keys
  below : (i : ℕ) → i < lo → key_at keys i < hash
  above : (i : ℕ) → hi ≤ i → i < length keys → hash ≤ key_at keys i

module _ (keys : List ℕ) (hash : ℕ) (sorted : Sorted ltb keys) where
  upper-Inv :
      (lo hi mid : ℕ)
      → Inv keys hash lo hi
      → lo ≤ mid
      → mid < hi
      → reaches keys hash mid ≡ false
      → Inv keys hash (mid + 1) hi
  unfolding reaches
  upper-Inv lo hi mid inv p q e = record {
    ordered = omega arith;
    inside = inv.inside;
    below = λ i h.
        let fits = inv.inside in
        let near = key_at_mono keys i mid sorted (omega arith) (omega arith) in ground arith;
    above = inv.above;
  }

  lower-Inv :
      (lo hi mid : ℕ)
      → Inv keys hash lo hi
      → lo ≤ mid
      → mid < hi
      → reaches keys hash mid ≡ true
      → Inv keys hash lo mid
  unfolding reaches
  lower-Inv lo hi mid inv p q e = record {
    ordered = p;
    inside = let fits = inv.inside in omega arith;
    below = inv.below;
    above = λ i h k. let near = key_at_mono keys mid i sorted h k in ground arith;
  }

  search_from-Splits :
      (fuel lo hi : ℕ)
      → hi < lo + fuel
      → Inv keys hash lo hi
      → (r : ℕ) × (search_from keys hash fuel lo hi ≡ some r) × Splits keys hash r
  unfolding search_from
  search_from-Splits zero lo hi f inv = let p = inv.ordered in absurd (omega arith)
  search_from-Splits (suc fuel) lo hi f inv = elim (Bool-cases (ltb lo hi)) [
    | inr empty ↦ (
      lo,
      rw empty,
      record {
        inside = let p = inv.ordered in let q = inv.inside in omega arith;
        below = inv.below;
        above = λ i h. inv.above i (let p = inv.ordered in ground arith);
      },
    )
    | inl open_range ↦
        let mid = (lo + hi) / 2 in
        let p : lo ≤ mid = ground arith in
        let q : mid < hi = ground arith in
        elim (Bool-cases (reaches keys hash mid)) [
          | inl e ↦
              rw (open_range, e)
                (search_from-Splits fuel lo mid (omega arith) (lower-Inv lo hi mid inv p q e))
          | inr e ↦
              rw (open_range, e)
                (search_from-Splits fuel (mid + 1) hi (omega arith) (upper-Inv lo hi mid inv p q e))
        ]
  ]

-- The search as a scan: the number of the keys before the first one that is not below the hash.
unfoldable pub first_from : List ℕ → ℕ → ℕ
first_from [] hash = 0
first_from (k ∷ keys) hash = let rest = suc (first_from keys hash) in if leb hash k then 0 else rest

first_from-Splits : (keys : List ℕ) (hash r : ℕ) → Splits keys hash r → first_from keys hash ≡ r
unfolding first_from
first_from-Splits [] hash r s = let p = s.inside in omega arith
first_from-Splits (k ∷ keys) hash zero s =
    let p = s.above 0 (omega arith) (omega arith) in ground arith
first_from-Splits (k ∷ keys) hash (suc r) s =
    let p = s.below 0 (omega arith) in
    let ih = first_from-Splits keys hash r (record {
      inside = let q = s.inside in omega arith;
      below = λ i h. s.below (suc i) (omega arith);
      above = λ i h l. s.above (suc i) (omega arith) (omega arith);
    }) in
    ground arith

pub search-Splits :
    (keys : List ℕ) (hash : ℕ)
    → Sorted ltb keys
    → (r : ℕ) × (search_from keys hash (suc (length keys)) 0 (length keys) ≡ some r)
      × Splits keys hash r
search-Splits keys hash sorted =
    search_from-Splits keys hash sorted (suc (length keys)) 0 (length keys) (omega arith) (record {
      ordered = omega arith;
      inside = omega arith;
      below = λ i h. elim h [ ];
      above = λ i h k. absurd (omega arith);
    })

-- The binary search ends on sorted keys, and gives the index that a scan for the first key that is
-- not below the hash gives, or 0 where there is none.
pub search_ring-first_from :
    (ring : Ring) (hash : ℕ)
    → Sorted ltb ring.sorted_keys
    → search_ring ring hash ≡ wrap ring.sorted_keys (some (first_from ring.sorted_keys hash))
unfolding search_ring
search_ring-first_from ring hash sorted =
    let (r, e, s) = search-Splits ring.sorted_keys hash sorted in
    rw (e, first_from-Splits ring.sorted_keys hash r s) refl
