-- ===== src/Pubsub/Unsubscribing.antt =====
-- Unsubscribe keeps a broker valid (pubsub/pubsub.go).
use toll_mesh_store.Common.{
  ℕ, ◌≡◌, ◌≢◌, ◌≤◌, ◌<◌, inl, inr, refl, sym, ap, ◌∙◌, true, if◌then◌else◌, String, str_eq, eq_iff,
  Map, lookup, insert, erase, erase-Unique, lookup-erase, none, some, length, length-set, get_elem?,
  get_elem?-lt, set, get_elem?-set_self, get_elem?-set_ne, arith, Bool-cases, Option-cases,
  ℕ_discrete,
}
use toll_mesh_store.Pubsub.{Subscriber, Topic, PubSubBroker, capacity, close_at, unsubscribe}
use toll_mesh_store.Pubsub.Subscribing.{Runs}
use toll_mesh_store.Pubsub.Valid.{slot, IsBroker, slot-insert, history-insert}

-- A heap in which one subscriber is written, with a channel that is no longer than it was.
pub room-set :
    (pb : PubSubBroker) (a : ℕ) (old new : Subscriber)
    → IsBroker pb
    → get_elem? pb.heap a ≡ some old
    → length new.channel ≤ length old.channel
    → (b : ℕ) (s : Subscriber) → get_elem? (set pb.heap a new) b ≡ some s
    → length s.channel ≤ capacity
room-set pb a old new w e shorter b s h = elim (ℕ_discrete a b) [
  | no n ↦ w.room b s (sym (get_elem?-set_ne pb.heap a b new n) ∙ h)
  | yes p ↦
      let self = get_elem?-set_self pb.heap a new (get_elem?-lt pb.heap a old e) in
      let at : get_elem? (set pb.heap a new) b ≡ some new =
        ap (get_elem? (set pb.heap a new)) (sym p) ∙ self in
      let same : new ≡ s = cc in let bound = w.room a old e in rw (← same) (omega arith)
]

pub known-set :
    (pb : PubSubBroker) (a : ℕ) (new : Subscriber)
    → IsBroker pb
    → (id : String) (b : ℕ) → lookup id pb.subscribers ≡ some b
    → b < length (set pb.heap a new)
known-set pb a new w id b h = omega (arith, w.known id b h, length-set pb.heap a new)

known-erase :
    (pb : PubSubBroker) (gone : String)
    → IsBroker pb
    → (id : String) (b : ℕ) → lookup id (erase gone pb.subscribers) ≡ some b
    → b < length pb.heap
known-erase pb gone w id b h = ground (arith, lookup-erase gone id pb.subscribers, w.known id b, h)

slot-held :
    (topics : Map Topic) (topic id : String) (t : Topic) (a : ℕ)
    → lookup topic topics ≡ some t
    → lookup id t.subscribers ≡ some a
    → slot topics topic id ≡ some a
unfolding slot
slot-held topics topic id t a e held = rw (slot, e) held

module _ (pb : PubSubBroker) (w : IsBroker pb) (topic id : String) (t : Topic) (a : ℕ)
    (sub : Subscriber) (there : lookup topic pb.topics ≡ some t)
    (held : lookup id t.subscribers ≡ some a) (at : get_elem? pb.heap a ≡ some sub) where
  left : Map Topic
  left = insert topic (record t { subscribers = erase id t.subscribers }) pb.topics

  slot_there : (id' : String) → lookup id' t.subscribers ≡ slot pb.topics topic id'
  unfolding slot
  slot_there id' = rw (slot, there) refl

  same :
      {topic' id' : String} {b : ℕ}
      → a ≡ b
      → slot pb.topics topic' id' ≡ some b
      → (topic ≡ topic') × (id ≡ id')
  same {topic'} {id'} e was =
      w.subscriptions.apart topic topic' id id' a (slot-held pb.topics topic id t a there held)
        (was ∙ ap some (sym e))

  slot-left :
      (topic' id' : String)
      → slot left topic' id' ≡ (
          if str_eq topic topic'
          then (if str_eq id id' then none else slot pb.topics topic' id')
          else slot pb.topics topic' id')
  unfolding left
  slot-left topic' id' =
      slot-insert pb.topics topic (record t { subscribers = erase id t.subscribers }) topic' id'
      ∙ elim (Bool-cases (str_eq topic topic')) [
        | inr miss ↦ rw miss refl
        | inl hit ↦ rw hit (
            lookup-erase id id' t.subscribers
            ∙ ap (λ o. if str_eq id id' then none else o)
                (slot_there id' ∙ ap (λ n. slot pb.topics n id') ((eq_iff topic topic').0 hit)))
      ]

  -- A subscription that is left was there, and is not the one that is closed.
  left-cases :
      (topic' id' : String) (b : ℕ)
      → slot left topic' id' ≡ some b
      → (slot pb.topics topic' id' ≡ some b) × (a ≢ b)
  unfolding left slot
  left-cases topic' id' b h = elim (Bool-cases (str_eq topic topic')) [
    | inr miss ↦
        let was : slot pb.topics topic' id' ≡ some b =
          sym (slot-left topic' id' ∙ rw miss refl) ∙ h in
        (was, λ e. let (p, q) = same e was in absurd (ground (arith, eq_iff topic topic', miss, p)))
    | inl hit ↦ elim (Bool-cases (str_eq id id')) [
      | inl self ↦ absurd (
          let gone : slot left topic' id' ≡ none = slot-left topic' id' ∙ rw (hit, self) refl in cc)
      | inr other ↦
          let was : slot pb.topics topic' id' ≡ some b =
            sym (slot-left topic' id' ∙ rw (hit, other) refl) ∙ h in
          (was, λ e. let (p, q) = same e was in absurd (ground (arith, eq_iff id id', other, q)))
    ]
  ]

  left-IsBroker : IsBroker (record pb {
    topics = left;
    subscribers = erase id pb.subscribers;
    heap = set pb.heap a (record sub { closed = true });
  })
  unfolding left
  left-IsBroker =
      let closed : Subscriber = record sub { closed = true } in
      let (m, l, k) = w.history topic t there in
      record {
        subscriptions = record {
          open_at = λ topic' id' b h.
              let (was, n) = left-cases topic' id' b h in
              let (s, e, o) = w.subscriptions.open_at topic' id' b was in
              (s, get_elem?-set_ne pb.heap a b closed n ∙ e, o);
          apart = λ topic' topic'' id' id'' b h k.
              w.subscriptions.apart topic' topic'' id' id'' b (left-cases topic' id' b h).0
                (left-cases topic'' id'' b k).0;
        };
        known = λ i b h. omega (arith, known-erase pb id w i b h, length-set pb.heap a closed);
        history =
            history-insert pb topic (record t { subscribers = erase id t.subscribers }) w m l
              (erase-Unique id t.subscribers k);
        room = room-set pb a sub closed w at (omega arith);
        dead = w.dead;
      }

pub unsubscribe-Runs :
    (pb : PubSubBroker) (id topic : String) → IsBroker pb → Runs (unsubscribe pb id topic)
unfolding unsubscribe close_at left
unsubscribe-Runs pb id topic w = elim (Option-cases (lookup topic pb.topics)) [
  | inl e ↦ rw (unsubscribe, e) w
  | inr (t, e) ↦ elim (Option-cases (lookup id t.subscribers)) [
    | inl none_there ↦
        rw (unsubscribe, e, none_there)
          (record {
            subscriptions = w.subscriptions;
            known = known-erase pb id w;
            history = w.history;
            room = w.room;
            dead = w.dead;
          })
    | inr (a, held) ↦
        let (sub, at, fresh) =
          w.subscriptions.open_at topic id a (slot-held pb.topics topic id t a e held) in
        rw (unsubscribe, e, held, close_at, at, fresh)
          (left-IsBroker pb w topic id t a sub e held at)
  ]
]
