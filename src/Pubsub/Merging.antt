-- ===== src/Pubsub/Merging.antt =====
-- Merging a peer's history into a topic (MergeSnapshot of pubsub/pubsub.go).
use toll_mesh_store.Common.{
  ℕ, zero, suc, ◌-◌, ◌≡◌, ◌≤◌, refl, sym, ap, ◌∙◌, inl, inr, true, false, ◌||◌, ltb, String, str_eq,
  eq_iff, List, [], ◌∷◌, ◌++◌, length, length-drop, drop, place, sort, Sorted, WeakOrder,
  sort-Sorted, arith, Bool-cases,
}
use toll_mesh_store.Pubsub.{Message, Topic}
use toll_mesh_store.Pubsub.Gossip.{has_id, add_unseen, earlier, keep_last, merge_history}

has_id-append :
    (id : String) (m : Message) (xs : List Message)
    → has_id id (xs ++ m ∷ []) ≡ (has_id id xs || str_eq m.id id)
unfolding has_id
has_id-append id m [] = ground arith
has_id-append id m (x ∷ xs) = ground (arith, has_id-append id m xs)

-- The union has the identifiers of both.
has_id-add_unseen :
    (id : String) (known peers : List Message)
    → has_id id (add_unseen known peers) ≡ (has_id id known || has_id id peers)
unfolding add_unseen has_id
has_id-add_unseen id known [] = ground arith
has_id-add_unseen id known (m ∷ rest) = elim (Bool-cases (has_id m.id known)) [
  | inl old ↦ rw old (has_id-add_unseen id known rest ∙ ground (arith, old, eq_iff m.id id))
  | inr new ↦
      rw new
        (has_id-add_unseen id (known ++ m ∷ []) rest ∙ ground (arith, has_id-append id m known))
]

has_id-place :
    (id : String) (m : Message) (xs : List Message)
    → has_id id (place earlier m xs) ≡ has_id id (m ∷ xs)
unfolding place has_id
has_id-place id m [] = refl
has_id-place id m (x ∷ xs) = ground (arith, has_id-place id m xs)

has_id-sort : (id : String) (xs : List Message) → has_id id (sort earlier xs) ≡ has_id id xs
unfolding sort has_id
has_id-sort id [] = refl
has_id-sort id (x ∷ xs) = has_id-place id x (sort earlier xs) ∙ ground (arith, has_id-sort id xs)

has_id-drop :
    (id : String) (n : ℕ) (xs : List Message) → has_id id (drop n xs) ≡ true → has_id id xs ≡ true
unfolding has_id
has_id-drop id zero xs h = h
has_id-drop id (suc n) [] h = h
has_id-drop id (suc n) (x ∷ xs) h = ground (arith, has_id-drop id n xs h)

-- Each identifier stands once.
abbrev pub Once : List Message → Type 0
Once [] = Unit
Once (m ∷ rest) = (has_id m.id rest ≡ false) × Once rest

Once-append :
    (m : Message) (xs : List Message) → has_id m.id xs ≡ false → Once xs → Once (xs ++ m ∷ [])
unfolding has_id
Once-append m [] h o = (refl, tt)
Once-append m (x ∷ xs) h o =
    ground (arith, has_id-append x.id m xs, Once-append m xs, eq_iff m.id x.id, eq_iff x.id m.id)

Once-add_unseen : (known peers : List Message) → Once known → Once (add_unseen known peers)
unfolding add_unseen
Once-add_unseen known [] o = o
Once-add_unseen known (m ∷ rest) o = elim (Bool-cases (has_id m.id known)) [
  | inl old ↦ rw old (Once-add_unseen known rest o)
  | inr new ↦ rw new (Once-add_unseen (known ++ m ∷ []) rest (Once-append m known new o))
]

Once-place :
    (m : Message) (xs : List Message) → has_id m.id xs ≡ false → Once xs → Once (place earlier m xs)
unfolding place has_id
Once-place m [] h o = (refl, tt)
Once-place m (x ∷ xs) h o =
    ground (arith, has_id-place x.id m xs, Once-place m xs, eq_iff m.id x.id, eq_iff x.id m.id)

Once-sort : (xs : List Message) → Once xs → Once (sort earlier xs)
unfolding sort
Once-sort [] o = tt
Once-sort (x ∷ xs) o = Once-place x (sort earlier xs) (has_id-sort x.id xs ∙ o.0) (Once-sort xs o.1)

Once-drop : (n : ℕ) (xs : List Message) → Once xs → Once (drop n xs)
Once-drop zero xs o = o
Once-drop (suc n) [] o = tt
Once-drop (suc n) (x ∷ xs) o = Once-drop n xs o.1

Sorted-drop : (n : ℕ) (xs : List Message) → Sorted earlier xs → Sorted earlier (drop n xs)
Sorted-drop zero xs s = s
Sorted-drop (suc n) [] s = tt
Sorted-drop (suc n) (x ∷ xs) s = Sorted-drop n xs s.1

earlier-WeakOrder : WeakOrder earlier
earlier-WeakOrder = record {
  irrefl = λ a. ground arith;
  asym = λ a b h. ground (arith, h);
  false_trans = λ a b c h k. ground (arith, h, k);
}

-- What `keep_last` leaves: the list where it is short enough, and its end else.
kept :
    (P : List Message → Type 0) (max : ℕ) (xs : List Message)
    → P xs
    → ((n : ℕ) → P (drop n xs))
    → P (keep_last max xs)
unfolding keep_last
kept P max xs whole cut = elim (Bool-cases (ltb max (length xs))) [
  | inl long ↦ rw long (cut (length xs - max))
  | inr short ↦ rw short whole
]

keep_last_bound : (max : ℕ) (xs : List Message) → length (keep_last max xs) ≤ max
unfolding keep_last
keep_last_bound max xs = ground (arith, length-drop (length xs - max) xs)

keep_last_short : (max : ℕ) (xs : List Message) → length xs ≤ max → keep_last max xs ≡ xs
unfolding keep_last
keep_last_short max xs h = ground (arith, h)

length-place : (m : Message) (xs : List Message) → length (place earlier m xs) ≡ suc (length xs)
unfolding place
length-place m [] = refl
length-place m (x ∷ xs) = ground (arith, length-place m xs)

length-sort : (xs : List Message) → length (sort earlier xs) ≡ length xs
unfolding sort
length-sort [] = refl
length-sort (x ∷ xs) = length-place x (sort earlier xs) ∙ ap suc (length-sort xs)

abbrev pub union : Topic → List Message → List Message
union t peers = add_unseen t.messages peers

-- A merge into a history whose identifiers are distinct leaves a history whose identifiers are
-- distinct, in the order of the timestamps, and no longer than the topic allows. It has only
-- identifiers that the history or the peer had, and all of them where the topic allows so many.
pub merge_history_lem :
    (t : Topic) (peers : List Message)
    → Once t.messages
    → Once (merge_history t peers).messages
      × Sorted earlier (merge_history t peers).messages
      × (length (merge_history t peers).messages ≤ t.max_history)
      × ((id : String)
          → has_id id (merge_history t peers).messages ≡ true
          → (has_id id t.messages || has_id id peers) ≡ true)
      × (length (union t peers) ≤ t.max_history
          → (id : String)
          → has_id id (merge_history t peers).messages ≡ (has_id id t.messages || has_id id peers))
unfolding merge_history
merge_history_lem t peers o =
    let all = add_unseen t.messages peers in
    let ordered = sort earlier all in
    let once = Once-sort all (Once-add_unseen t.messages peers o) in
    let sorted = sort-Sorted earlier earlier-WeakOrder all in
    let same = λ (id : String). has_id-sort id all ∙ has_id-add_unseen id t.messages peers in
    (
      kept Once t.max_history ordered once (λ n. Once-drop n ordered once),
      kept (Sorted earlier) t.max_history ordered sorted (λ n. Sorted-drop n ordered sorted),
      keep_last_bound t.max_history ordered,
      λ id.
          kept (λ xs. has_id id xs ≡ true → (has_id id t.messages || has_id id peers) ≡ true)
            t.max_history ordered (λ h. sym (same id) ∙ h)
            (λ n h. sym (same id) ∙ has_id-drop id n ordered h),
      λ fits id.
          ap (has_id id)
            (keep_last_short t.max_history ordered (omega (arith, fits, length-sort all)))
          ∙ same id,
    )

pub merge_history_same :
    (t : Topic) (peers : List Message)
    → ((merge_history t peers).subscribers ≡ t.subscribers)
      × ((merge_history t peers).max_history ≡ t.max_history)
      × (length (merge_history t peers).messages ≤ t.max_history)
unfolding merge_history
merge_history_same t peers =
    (refl, refl, keep_last_bound t.max_history (sort earlier (add_unseen t.messages peers)))
