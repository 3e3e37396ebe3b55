-- ===== src/Metrics/Window.antt =====
-- The ring of latency samples as a bounded queue.
use mathlib.Core.List.{append-nil, append_assoc}
use native.Mathlib.Nat.{mod-lt, mod-eq_of_lt, mod_self}
use native.Mathlib.Numerals.{add-one}
use toll_mesh_store.Common.{
  length-append, length-drop, ℕ, zero, suc, ◌+◌, ◌%◌, ◌≤◌, ◌<◌, ◌≡◌, refl, ap, List, [], ◌∷◌, ◌++◌,
  arith, dec_lt, length, take, drop, set, ltb, length-set, if◌then◌else◌,
}
use toll_mesh_store.Metrics.{LatencyRing, add}

-- The slots fill up from the front, and only then does the cursor go round.
pub record IsValid (r : LatencyRing) : Type 0 where
  pub in_range : r.cursor < length r.samples
  pub fits : r.count ≤ length r.samples
  pub filling : r.count < length r.samples → r.cursor ≡ r.count

-- The samples that the ring holds, oldest first.
pub window : LatencyRing → List ℕ
window r =
    if ltb r.count (length r.samples)
    then take r.count r.samples
    else drop r.cursor r.samples ++ take r.cursor r.samples

-- A queue of at most `capacity` samples: a full one drops its head.
abbrev pub push_bounded : ℕ → List ℕ → ℕ → List ℕ
push_bounded capacity xs v = if ltb (length xs) capacity then xs ++ v ∷ [] else drop 1 xs ++ v ∷ []

next_slot :
    (r : LatencyRing)
    → r.cursor + 1 < length r.samples
    → (r.cursor + 1) % length r.samples ≡ r.cursor + 1
next_slot r h = mod-eq_of_lt h

pub add-IsValid : (r : LatencyRing) (v : ℕ) → IsValid r → IsValid (add r v)
unfolding add
add-IsValid r v h =
    let e = length-set r.samples r.cursor v in
    let wraps = mod-lt (r.cursor + 1) {m = length r.samples} (omega arith) in
    let stays = next_slot r in
    record {
      in_range = ground (arith, e, wraps);
      fits = ground (arith, e);
      filling = λ below. ground (arith, e, stays);
    }

take-set : (xs : List ℕ) (c v : ℕ) → c < length xs → take (suc c) (set xs c v) ≡ take c xs ++ v ∷ []
take-set [] c v h = elim h [ ]
take-set (x ∷ xs) zero v h = refl
take-set (x ∷ xs) (suc c) v h = ap (◌∷◌ x) (take-set xs c v (omega arith))

drop-set : (xs : List ℕ) (c v : ℕ) → drop (suc c) (set xs c v) ≡ drop (suc c) xs
drop-set [] c v = refl
drop-set (x ∷ xs) zero v = refl
drop-set (x ∷ xs) (suc c) v = drop-set xs c v

drop_all : (xs : List ℕ) (c : ℕ) → length xs ≤ c → drop c xs ≡ []
drop_all [] zero h = refl
drop_all [] (suc c) h = refl
drop_all (x ∷ xs) zero h = absurd (omega arith)
drop_all (x ∷ xs) (suc c) h = drop_all xs c (omega arith)

take_all : (xs : List ℕ) (c : ℕ) → length xs ≤ c → take c xs ≡ xs
take_all [] zero h = refl
take_all [] (suc c) h = refl
take_all (x ∷ xs) zero h = absurd (omega arith)
take_all (x ∷ xs) (suc c) h = ap (◌∷◌ x) (take_all xs c (omega arith))

drop_one :
    (xs ys : List ℕ) (c : ℕ) → c < length xs → drop 1 (drop c xs ++ ys) ≡ drop (suc c) xs ++ ys
drop_one [] ys c h = elim h [ ]
drop_one (x ∷ xs) ys zero h = refl
drop_one (x ∷ xs) ys (suc c) h = drop_one xs ys c (omega arith)

length-take_le : (xs : List ℕ) (c : ℕ) → c ≤ length xs → length (take c xs) ≡ c
length-take_le xs zero h = refl
length-take_le [] (suc c) h = absurd (omega arith)
length-take_le (x ∷ xs) (suc c) h = ap suc (length-take_le xs c (omega arith))

-- The number of samples that are held.
length-window : (r : LatencyRing) → IsValid r → length (window r) ≡ r.count
unfolding window
length-window r h = ground (
  arith,
  length-take_le r.samples r.count,
  length-take_le r.samples r.cursor,
  length-drop r.cursor r.samples,
  length-append (drop r.cursor r.samples) (take r.cursor r.samples),
)

window_filling :
    (r : LatencyRing) (v : ℕ)
    → IsValid r
    → r.count < length r.samples
    → window (add r v) ≡ take r.count r.samples ++ v ∷ []
unfolding window add
window_filling r v h below =
    let same : r.cursor ≡ r.count = h.filling below in
    let t : take (r.count + 1) (set r.samples r.count v) ≡ take r.count r.samples ++ v ∷ [] =
      rw add-one (take-set r.samples r.count v below) in
    elim (dec_lt (r.count + 1) (length r.samples)) [
      | yes p ↦ ground (arith, length-set r.samples r.cursor v, t)
      | no p ↦ ground (
        arith,
        length-set r.samples r.cursor v,
        t,
        mod_self (length r.samples),
        append-nil (set r.samples r.count v),
        take_all (set r.samples r.count v) (r.count + 1),
        length-set r.samples r.count v,
      )
    ]

window_full :
    (r : LatencyRing) (v : ℕ)
    → IsValid r
    → r.count ≡ length r.samples
    → window (add r v) ≡ (drop (suc r.cursor) r.samples ++ take r.cursor r.samples) ++ v ∷ []
unfolding window add
window_full r v h full =
    let size = length-set r.samples r.cursor v in
    let t : take (r.cursor + 1) (set r.samples r.cursor v) ≡ take r.cursor r.samples ++ v ∷ [] =
      rw add-one (take-set r.samples r.cursor v h.in_range) in
    let d : drop (r.cursor + 1) (set r.samples r.cursor v) ≡ drop (suc r.cursor) r.samples =
      rw add-one (drop-set r.samples r.cursor v) in
    let group = append_assoc (drop (suc r.cursor) r.samples) (take r.cursor r.samples) (v ∷ []) in
    elim (dec_lt (r.cursor + 1) (length r.samples)) [
      | yes p ↦ ground (arith, size, t, d, next_slot r, group)
      | no p ↦ ground (
        arith,
        size,
        t,
        mod_self (length r.samples),
        append-nil (set r.samples r.cursor v),
        take_all (set r.samples r.cursor v) (r.cursor + 1),
        drop_all r.samples (suc r.cursor),
        group,
      )
    ]

-- Adding a sample is a push to a queue of bounded length, whose oldest sample goes when it is full.
pub window-add :
    (r : LatencyRing) (v : ℕ)
    → IsValid r
    → window (add r v) ≡ push_bounded (length r.samples) (window r) v
unfolding window
window-add r v h = elim (dec_lt r.count (length r.samples)) [
  | yes p ↦ ground (arith, length-window r h, window_filling r v h p)
  | no p ↦ ground (
    arith,
    length-window r h,
    window_full r v h (omega arith),
    drop_one r.samples (take r.cursor r.samples) r.cursor h.in_range,
  )
]
