-- ===== src/Pubsub/Addresses.antt =====
-- A topic's subscribers stand at addresses of their own (pubsub/pubsub.go).
use toll_mesh_store.Common.{
  ℕ, ◌≡◌, inl, inr, refl, sym, ap, ◌∙◌, true, ◌==◌, ==_iff, String, str_eq, eq_iff, Map, Unique,
  lookup, some, List, [], ◌∷◌, arith, Bool-cases,
}
use toll_mesh_store.Pubsub.{Subscriber, PubSubBroker, topic_of}
use toll_mesh_store.Pubsub.Valid.{IsOpen, IsBroker, topic_of-slot, topic_of-history}
use toll_mesh_store.Pubsub.Sending.{addresses, among, Distinct, Opened}

-- What the rest of a map has is what the map has.
under_rest :
    (id : String) (a : ℕ) (rest : Map ℕ) (i : String) (b : ℕ)
    → Unique ((id, a) ∷ rest)
    → lookup i rest ≡ some b
    → lookup i ((id, a) ∷ rest) ≡ some b
unfolding lookup
under_rest id a rest i b u e = elim (Bool-cases (str_eq id i)) [
  | inl hit ↦ absurd (let x = ap (λ j. lookup j rest) ((eq_iff id i).0 hit) in let y = u.0 in cc)
  | inr miss ↦ rw miss e
]

-- A map's addresses are those that are found under its keys.
Opened-all :
    (heap : List Subscriber) (subs : Map ℕ)
    → Unique subs
    → ((id : String) (a : ℕ) → lookup id subs ≡ some a → IsOpen heap a)
    → Opened heap (addresses subs)
unfolding addresses lookup
Opened-all heap [] u h = tt
Opened-all heap ((id, a) ∷ rest) u h = (
  h id a (rw ((eq_iff id id).1 refl) refl),
  Opened-all heap rest u.1 (λ i b e. h i b (under_rest id a rest i b u e)),
)

among-lookup :
    (a : ℕ) (subs : Map ℕ)
    → Unique subs
    → among a (addresses subs) ≡ true
    → (id : String) × (lookup id subs ≡ some a)
unfolding addresses among lookup
among-lookup a [] u h = absurd (cc)
among-lookup a ((id, b) ∷ rest) u h = elim (Bool-cases (b == a)) [
  | inl e ↦ (id, rw ((eq_iff id id).1 refl) (ap some ((==_iff b a).0 e)))
  | inr n ↦
      let (i, e) = among-lookup a rest u.1 (ground (arith, h, n)) in
      (i, under_rest id b rest i a u e)
]

Distinct-all :
    (subs : Map ℕ)
    → Unique subs
    → ((id id' : String) (a : ℕ) → lookup id subs ≡ some a → lookup id' subs ≡ some a → id ≡ id')
    → Distinct (addresses subs)
unfolding addresses lookup
Distinct-all [] u h = tt
Distinct-all ((id, a) ∷ rest) u h = (
  elim (Bool-cases (among a (addresses rest))) [
    | inr no_more ↦ no_more
    | inl again ↦
        let (i, e) = among-lookup a rest u.1 again in
        let under = under_rest id a rest i a u e in
        let same = h id i a (rw ((eq_iff id id).1 refl) refl) under in
        absurd (let x = ap (λ j. lookup j rest) same in let y = u.0 in cc)
  ],
  Distinct-all rest u.1
      (λ i j b e f. h i j b (under_rest id a rest i b u e) (under_rest id a rest j b u f)),
)

-- The subscribers of a topic of a valid broker.
pub topic_of-Opened :
    (pb : PubSubBroker) (topic : String)
    → IsBroker pb
    → Opened pb.heap (addresses (topic_of pb topic).subscribers)
topic_of-Opened pb topic w =
    let (m, l, k) = topic_of-history pb topic w in
    Opened-all pb.heap (topic_of pb topic).subscribers k
      (λ id a e. w.subscriptions.open_at topic id a (sym (topic_of-slot pb topic id) ∙ e))

pub topic_of-Distinct :
    (pb : PubSubBroker) (topic : String)
    → IsBroker pb
    → Distinct (addresses (topic_of pb topic).subscribers)
topic_of-Distinct pb topic w =
    let (m, l, k) = topic_of-history pb topic w in
    Distinct-all (topic_of pb topic).subscribers k (λ id id' a e f.
      (w.subscriptions.apart topic topic id id' a (sym (topic_of-slot pb topic id) ∙ e)
        (sym (topic_of-slot pb topic id') ∙ f)).1)
