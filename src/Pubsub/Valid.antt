-- ===== src/Pubsub/Valid.antt =====
-- What every broker is: its channels open, apart and within their bounds (pubsub/pubsub.go).
use toll_mesh_store.Common.{
  ℕ, ◌≡◌, ◌≤◌, ◌<◌, inl, inr, refl, sym, ap, subst, ◌∙◌, false, if◌then◌else◌, String, str_eq,
  eq_iff, Map, lookup, insert, Unique, lookup-insert, Option, none, some, List, length, get_elem?,
  arith, Bool-cases, Option-cases,
}
use toll_mesh_store.Pubsub.{
  Subscriber, Topic, PubSubBroker, new_broker, new_topic, topic_of, capacity,
}

-- The subscription of a subscriber to a topic.
unfoldable pub slot : Map Topic → String → String → Option ℕ
slot topics topic id = elim (lookup topic topics) [ none ↦ none | some t ↦ lookup id t.subscribers ]

-- A subscriber whose channel is open.
abbrev pub IsOpen : List Subscriber → ℕ → Type 0
IsOpen heap a = (sub : Subscriber) × (get_elem? heap a ≡ some sub) × (sub.closed ≡ false)

-- Each subscription has a subscriber of its own, whose channel is open.
pub record Apart (topics : Map Topic) (heap : List Subscriber) : Type 0 where
  pub open_at : (topic id : String) (a : ℕ) → slot topics topic id ≡ some a → IsOpen heap a
  pub apart :
      (topic topic' id id' : String) (a : ℕ)
      → slot topics topic id ≡ some a
      → slot topics topic' id' ≡ some a
      → (topic ≡ topic') × (id ≡ id')

-- The bounds of the histories, of the channels and of the dead letters.
pub record IsBroker (pb : PubSubBroker) : Type 0 where
  pub subscriptions : Apart pb.topics pb.heap
  pub known : (id : String) (a : ℕ) → lookup id pb.subscribers ≡ some a → a < length pb.heap
  pub history :
      (topic : String) (t : Topic)
      → lookup topic pb.topics ≡ some t
      → (t.max_history ≡ 100) × (length t.messages ≤ 100) × Unique t.subscribers
  pub room :
      (a : ℕ) (sub : Subscriber) → get_elem? pb.heap a ≡ some sub → length sub.channel ≤ capacity
  pub dead : length pb.dead_letters ≤ pb.max_dlq_size

pub new_broker-IsBroker :
    (max_dlq_size : ℕ) (node_id : String) → IsBroker (new_broker max_dlq_size node_id)
unfolding new_broker lookup slot
new_broker-IsBroker max_dlq_size node_id = record {
  subscriptions = record {
    open_at = λ topic id a h. absurd (cc);
    apart = λ topic topic' id id' a h k. absurd (cc);
  };
  known = λ id a h. absurd (cc);
  history = λ topic t h. absurd (cc);
  room = λ a sub h. absurd (cc);
  dead = omega arith;
}

pub topic_of-slot :
    (pb : PubSubBroker) (topic id : String)
    → lookup id (topic_of pb topic).subscribers ≡ slot pb.topics topic id
unfolding topic_of new_topic slot lookup
topic_of-slot pb topic id = elim (Option-cases (lookup topic pb.topics)) [
  | inl e ↦ rw (topic_of, slot, e) refl
  | inr (t, e) ↦ rw (topic_of, slot, e) refl
]

pub topic_of-history :
    (pb : PubSubBroker) (topic : String)
    → IsBroker pb
    → ((topic_of pb topic).max_history ≡ 100)
      × (length (topic_of pb topic).messages ≤ 100)
      × Unique (topic_of pb topic).subscribers
unfolding topic_of new_topic
topic_of-history pb topic w = elim (Option-cases (lookup topic pb.topics)) [
  | inl e ↦ rw (topic_of, e) (refl, omega arith, tt)
  | inr (t, e) ↦ rw (topic_of, e) (w.history topic t e)
]

-- The subscriptions after a topic is written.
pub slot-insert :
    (topics : Map Topic) (name : String) (t : Topic) (topic id : String)
    → slot (insert name t topics) topic id
      ≡ (if str_eq name topic then lookup id t.subscribers else slot topics topic id)
unfolding slot
slot-insert topics name t topic id = elim (Bool-cases (str_eq name topic)) [
  | inl hit ↦ rw (slot, lookup-insert name topic t topics, hit) refl
  | inr miss ↦ rw (slot, lookup-insert name topic t topics, miss) refl
]

-- A topic that is written with the subscriptions that it had.
pub slot-same :
    (pb : PubSubBroker) (name : String) (t : Topic) (topic id : String)
    → t.subscribers ≡ (topic_of pb name).subscribers
    → slot (insert name t pb.topics) topic id ≡ slot pb.topics topic id
slot-same pb name t topic id e =
    slot-insert pb.topics name t topic id ∙ elim (Bool-cases (str_eq name topic)) [
      | inr miss ↦ rw miss refl
      | inl hit ↦ rw hit (
          ap (lookup id) e
          ∙ topic_of-slot pb name id
          ∙ ap (λ n. slot pb.topics n id) ((eq_iff name topic).0 hit))
    ]

pub history-insert :
    (pb : PubSubBroker) (name : String) (t : Topic)
    → IsBroker pb
    → t.max_history ≡ 100
    → length t.messages ≤ 100
    → Unique t.subscribers
    → (topic : String) (u : Topic) → lookup topic (insert name t pb.topics) ≡ some u
    → (u.max_history ≡ 100) × (length u.messages ≤ 100) × Unique u.subscribers
history-insert pb name t w m l k topic u h = elim (Bool-cases (str_eq name topic)) [
  | inl hit ↦
      let read : lookup topic (insert name t pb.topics) ≡ some t =
        lookup-insert name topic t pb.topics ∙ rw hit refl in
      let same : t ≡ u = cc in
      subst
        (λ (v : Topic). (v.max_history ≡ 100) × (length v.messages ≤ 100) × Unique v.subscribers)
        same (m, l, k)
  | inr miss ↦
      let read : lookup topic (insert name t pb.topics) ≡ lookup topic pb.topics =
        lookup-insert name topic t pb.topics ∙ rw miss refl in
      w.history topic u (sym read ∙ h)
]

-- A heap in which every subscriber is as open as it was.
pub Apart-same :
    (topics topics' : Map Topic) (heap heap' : List Subscriber)
    → Apart topics heap
    → ((topic id : String) → slot topics' topic id ≡ slot topics topic id)
    → ((a : ℕ) → IsOpen heap a → IsOpen heap' a)
    → Apart topics' heap'
Apart-same topics topics' heap heap' s same opens = record {
  open_at = λ topic id a h. opens a (s.open_at topic id a (sym (same topic id) ∙ h));
  apart = λ topic topic' id id' a h k.
      s.apart topic topic' id id' a (sym (same topic id) ∙ h) (sym (same topic' id') ∙ k);
}
