-- ===== src/Pubsub.antt =====
-- The broker of topics and subscriptions (pubsub/pubsub.go).
--
-- A topic and the broker share pointers to subscribers, so subscribers stand in a heap under
-- addresses. A channel is the list of the messages in its buffer. `regexp` is not part of the
-- repository: `compile` gives for a pattern the test that its expression makes of a text, or none
-- where the pattern is invalid. A send on a closed channel and a second close panic.
pub mod Gossip
pub mod Valid
pub mod Subscribing
pub mod Unsubscribing
pub mod Sending
pub mod Addresses
pub mod Running
pub mod Merging
pub mod Calls
pub mod Tests
use toll_mesh_store.Common.{
  ℕ, ◌+◌, ◌-◌, Bool, true, false, ltb, ◌==◌, if◌then◌else◌, String, str_eq, ◌⧺◌, decimal, Bytes,
  Map, lookup, insert, erase, Option, none, some, List, [], ◌∷◌, ◌++◌, length, get_elem?, set, take,
  drop, milli,
}

pub record Message : Type 0 where
  pub topic : String
  pub payload : Bytes
  pub timestamp : ℕ
  pub publisher : String
  pub id : String

pub record Subscriber : Type 0 where
  pub id : String
  pub channel : List Message
  pub closed : Bool
  pub pattern : String
  pub regex : Option (String → Bool)
  pub created : ℕ

pub record Topic : Type 0 where
  pub name : String
  pub subscribers : Map ℕ
  pub messages : List Message
  pub max_history : ℕ

pub record PubSubBroker : Type 0 where
  pub topics : Map Topic
  pub subscribers : Map ℕ
  pub heap : List Subscriber
  pub dead_letters : List Message
  pub max_dlq_size : ℕ
  pub node_id : String

unfoldable pub new_broker : ℕ → String → PubSubBroker
new_broker max_dlq_size node_id = record {
  topics = [];
  subscribers = [];
  heap = [];
  dead_letters = [];
  max_dlq_size = max_dlq_size;
  node_id = node_id;
}

unfoldable pub new_topic : String → Topic
new_topic name = record { name = name; subscribers = []; messages = []; max_history = 100 }

-- The topic of a name, made where it is missing.
unfoldable pub topic_of : PubSubBroker → String → Topic
unfolding new_topic
topic_of pb name = elim (lookup name pb.topics) [ none ↦ new_topic name | some t ↦ t ]

abbrev pub put_topic : PubSubBroker → String → Topic → PubSubBroker
put_topic pb name t = record pb { topics = insert name t pb.topics }

pub data Error : Type 0 where
  topic_not_found subscriber_not_found : String → Error
  invalid_pattern : Error

-- How a call ends.
pub data Outcome (A : Type 0) : Type 0 where
  panicked : Outcome A
  done : PubSubBroker → A → Outcome A

-- The expression of a subscription: none for the empty pattern.
pub data Compiled : Type 0 where
  invalid : Compiled
  valid : Option (String → Bool) → Compiled

abbrev pub valid_of : Option (String → Bool) → Compiled
valid_of none = invalid
valid_of (some f) = valid (some f)

unfoldable pub compiled : (String → Option (String → Bool)) → String → Compiled
compiled compile pattern = if str_eq pattern "" then valid none else valid_of (compile pattern)

-- The new subscription is known to the topic under its identifier, and to the broker, in the place of
-- whatever the broker had under that identifier.
unfoldable pub subscribe :
    (String → Option (String → Bool))
    → PubSubBroker
    → String
    → String
    → String
    → ℕ
    → Outcome (Option Error)
unfolding topic_of compiled
subscribe compile pb subscriber_id topic pattern now =
    let t = topic_of pb topic in
    let a = length pb.heap in
    elim (compiled compile pattern) [
      | invalid ↦ done (put_topic pb topic t) (some invalid_pattern)
      | valid regex ↦
          done
            (record pb {
              topics =
                  insert topic (record t { subscribers = insert subscriber_id a t.subscribers })
                    pb.topics;
              subscribers = insert subscriber_id a pb.subscribers;
              heap =
                  pb.heap
                  ++ (record {
                    id = subscriber_id;
                    channel = [];
                    closed = false;
                    pattern = pattern;
                    regex = regex;
                    created = milli now;
                  })
                    ∷ [];
            })
            none
    ]

-- The broker after the channel at an address is closed.
unfoldable pub close_at : PubSubBroker → String → String → Topic → ℕ → Outcome (Option Error)
close_at pb subscriber_id topic t a = elim (get_elem? pb.heap a) [
  | none ↦ panicked
  | some sub ↦
      if sub.closed
      then panicked
      else done
          (record pb {
            topics =
                insert topic (record t { subscribers = erase subscriber_id t.subscribers })
                  pb.topics;
            subscribers = erase subscriber_id pb.subscribers;
            heap = set pb.heap a (record sub { closed = true });
          })
          none
]

-- The broker forgets the subscriber, also where the topic does not have it.
unfoldable pub unsubscribe : PubSubBroker → String → String → Outcome (Option Error)
unfolding close_at
unsubscribe pb subscriber_id topic = elim (lookup topic pb.topics) [
  | none ↦ done pb (some (topic_not_found topic))
  | some t ↦ elim (lookup subscriber_id t.subscribers) [
    | none ↦ done (record pb { subscribers = erase subscriber_id pb.subscribers }) none
    | some a ↦ close_at pb subscriber_id topic t a
  ]
]

-- The room of a channel.
abbrev pub capacity : ℕ
capacity = 100

unfoldable pub add_to_dead_letter_queue : ℕ → List Message → Message → List Message
add_to_dead_letter_queue max dead msg =
    let all = dead ++ msg ∷ [] in if ltb max (length all) then drop 1 all else all

-- What the loop of `Publish` changes.
pub record Delivery : Type 0 where
  pub heap : List Subscriber
  pub dead_letters : List Message
  pub count : ℕ

abbrev pub matches : Option (String → Bool) → String → Bool
matches none topic = true
matches (some f) topic = f topic

unfoldable pub send : ℕ → String → Message → Delivery → ℕ → Subscriber → Option Delivery
unfolding add_to_dead_letter_queue
send max topic msg d a sub =
    if matches sub.regex topic
    then if sub.closed
      then none
      else if ltb (length sub.channel) capacity
      then some (record d {
        heap = set d.heap a (record sub { channel = sub.channel ++ msg ∷ [] });
        count = d.count + 1;
      })
      else some (record d { dead_letters = add_to_dead_letter_queue max d.dead_letters msg })
    else some d

-- The loop over a topic's subscribers. `none` is a panic.
unfoldable pub deliver : ℕ → String → Message → Map ℕ → Delivery → Option Delivery
unfolding send
deliver max topic msg [] d = some d
deliver max topic msg ((subscriber_id, a) ∷ rest) d = elim (get_elem? d.heap a) [
  | none ↦ none
  | some sub ↦ elim (send max topic msg d a sub) [
    | none ↦ none
    | some d' ↦ deliver max topic msg rest d'
  ]
]

unfoldable pub remember : Topic → Message → Topic
remember t msg =
    let all = t.messages ++ msg ∷ [] in
    record t { messages = if ltb t.max_history (length all) then drop 1 all else all }

abbrev pub message_of : PubSubBroker → String → String → Bytes → ℕ → ℕ → Message
message_of pb topic publisher payload now now' = record {
  topic = topic;
  payload = payload;
  timestamp = milli now;
  publisher = publisher;
  id = topic ⧺ "-" ⧺ decimal now' ⧺ "-" ⧺ pb.node_id;
}

abbrev pub delivered : PubSubBroker → Option Delivery → Outcome ℕ
delivered pb none = panicked
delivered pb (some d) = done (record pb { heap = d.heap; dead_letters = d.dead_letters }) d.count

-- The clock is read twice, for the timestamp and for the identifier.
unfoldable pub publish : PubSubBroker → String → String → Bytes → ℕ → ℕ → Outcome ℕ
unfolding deliver remember topic_of
publish pb topic publisher payload now now' =
    let msg = message_of pb topic publisher payload now now' in
    let t = topic_of pb topic in
    delivered (put_topic pb topic (remember t msg)) (
      deliver pb.max_dlq_size topic msg t.subscribers
        (record { heap = pb.heap; dead_letters = pb.dead_letters; count = 0 }))

-- The messages, or the error.
pub data Polled : Type 0 where
  messages : List Message → Polled
  unknown : Error → Polled

-- The read of a channel as it stands when the wait ends, by the first message or at the deadline.
unfoldable pub poll : PubSubBroker → String → ℕ → Outcome Polled
poll pb subscriber_id limit = elim (lookup subscriber_id pb.subscribers) [
  | none ↦ done pb (unknown (subscriber_not_found subscriber_id))
  | some a ↦ elim (get_elem? pb.heap a) [
    | none ↦ panicked
    | some sub ↦
        let most = if limit == 0 then 1 else limit in
        done (record pb { heap = set pb.heap a (record sub { channel = drop most sub.channel }) })
          (messages (take most sub.channel))
  ]
]

-- The keys of a map.
unfoldable pub names : {V : Type 0} → Map V → List String
names [] = []
names ((name, v) ∷ rest) = name ∷ names rest

unfoldable pub get_topics : PubSubBroker → List String
unfolding names
get_topics pb = names pb.topics

unfoldable pub get_subscribers : PubSubBroker → String → List String
unfolding names
get_subscribers pb topic = elim (lookup topic pb.topics) [
  | none ↦ []
  | some t ↦ names t.subscribers
]

unfoldable pub get_message_history : PubSubBroker → String → ℕ → List Message
get_message_history pb topic limit = elim (lookup topic pb.topics) [
  | none ↦ []
  | some t ↦
      let n = length t.messages in
      let most = if ltb n limit then n else limit in drop (n - most) t.messages
]

unfoldable pub get_dead_letter_queue : PubSubBroker → List Message
get_dead_letter_queue pb = pb.dead_letters
