-- ===== src/Pubsub/Calls.antt =====
-- Sequences of calls, and subscriptions that the broker forgets (pubsub/pubsub.go).
use toll_mesh_store.Common.{
  ℕ, ◌≡◌, ◌≢◌, refl, ap, ◌∙◌, inl, inr, Bool, true, false, String, str_eq, eq_iff, Map, Bytes,
  lookup, insert, erase, lookup-erase, Option, none, some, List, [], ◌∷◌, set, arith, Option-cases,
  Bool-cases, get_elem?, get_elem?-set_ne, ==_iff, sym, subst,
}
use toll_mesh_store.Pubsub.{
  Message, Subscriber, Topic, PubSubBroker, topic_of, message_of, Outcome, panicked, done,
  subscriber_not_found, subscribe, close_at, unsubscribe, publish, poll, unknown,
}
use toll_mesh_store.Pubsub.Gossip.{merge_history, merge_topic, merge_snapshot}
use toll_mesh_store.Pubsub.Merging.{merge_history_same}
use toll_mesh_store.Pubsub.Valid.{
  slot, IsBroker, topic_of-slot, topic_of-history, slot-same, slot-insert, history-insert,
  Apart-same,
}
use toll_mesh_store.Pubsub.Subscribing.{Runs, subscribe-Runs}
use toll_mesh_store.Pubsub.Unsubscribing.{unsubscribe-Runs}
use toll_mesh_store.Pubsub.Sending.{receive, addresses, among}
use toll_mesh_store.Pubsub.Running.{publish_lem, poll-Runs}

merge_topic-IsBroker :
    (pb : PubSubBroker) (name : String) (peers : List Message)
    → IsBroker pb
    → IsBroker (merge_topic pb name peers)
unfolding merge_topic
merge_topic-IsBroker pb name [] w = w
merge_topic-IsBroker pb name (m ∷ rest) w =
    let t = merge_history (topic_of pb name) (m ∷ rest) in
    let (subs, max, bound) = merge_history_same (topic_of pb name) (m ∷ rest) in
    let (h, l, k) = topic_of-history pb name w in
    record {
      subscriptions =
          Apart-same pb.topics (insert name t pb.topics) pb.heap pb.heap w.subscriptions
            (λ n i. slot-same pb name t n i subs) (λ a o. o);
      known = w.known;
      history = history-insert pb name t w (max ∙ h) (omega (arith, bound, h)) (rw subs k);
      room = w.room;
      dead = w.dead;
    }

pub merge_snapshot-IsBroker :
    (pb : PubSubBroker) (peers : Map (List Message))
    → IsBroker pb
    → IsBroker (merge_snapshot pb peers)
unfolding merge_snapshot
merge_snapshot-IsBroker pb [] w = w
merge_snapshot-IsBroker pb ((name, msgs) ∷ rest) w =
    merge_snapshot-IsBroker (merge_topic pb name msgs) rest (merge_topic-IsBroker pb name msgs w)

pub data Call : Type 0 where
  subscribing : String → String → String → ℕ → Call
  unsubscribing : String → String → Call
  publishing : String → String → Bytes → ℕ → ℕ → Call
  polling : String → ℕ → Call
  merging : Map (List Message) → Call

abbrev pub broker_of : {A : Type 0} → Outcome A → Option PubSubBroker
broker_of panicked = none
broker_of (done pb a) = some pb

unfoldable pub step : (String → Option (String → Bool)) → PubSubBroker → Call → Option PubSubBroker
unfolding subscribe unsubscribe publish poll merge_snapshot
step compile pb (subscribing id topic pattern now) =
    broker_of (subscribe compile pb id topic pattern now)
step compile pb (unsubscribing id topic) = broker_of (unsubscribe pb id topic)
step compile pb (publishing topic publisher payload now now') =
    broker_of (publish pb topic publisher payload now now')
step compile pb (polling id limit) = broker_of (poll pb id limit)
step compile pb (merging peers) = some (merge_snapshot pb peers)

unfoldable pub run :
    (String → Option (String → Bool)) → PubSubBroker → List Call → Option PubSubBroker
unfolding step
run compile pb [] = some pb
run compile pb (c ∷ rest) = elim (step compile pb c) [
  | none ↦ none
  | some pb' ↦ run compile pb' rest
]

abbrev Steps : Option PubSubBroker → Type 0
Steps o = (pb : PubSubBroker) × (o ≡ some pb) × IsBroker pb

Runs-Steps : {A : Type 0} (o : Outcome A) → Runs o → Steps (broker_of o)
Runs-Steps panicked r = absurd r
Runs-Steps (done pb a) r = (pb, refl, r)

step-Steps :
    (compile : String → Option (String → Bool)) (pb : PubSubBroker) (c : Call)
    → IsBroker pb
    → Steps (step compile pb c)
unfolding step
step-Steps compile pb (subscribing id topic pattern now) w =
    Runs-Steps (subscribe compile pb id topic pattern now)
      (subscribe-Runs compile pb id topic pattern now w)
step-Steps compile pb (unsubscribing id topic) w =
    Runs-Steps (unsubscribe pb id topic) (unsubscribe-Runs pb id topic w)
step-Steps compile pb (publishing topic publisher payload now now') w =
    let (pb', e, v, got) = publish_lem pb topic publisher payload now now' w in
    (pb', ap broker_of e, v)
step-Steps compile pb (polling id limit) w = Runs-Steps (poll pb id limit) (poll-Runs pb id limit w)
step-Steps compile pb (merging peers) w =
    (merge_snapshot pb peers, refl, merge_snapshot-IsBroker pb peers w)

-- Over any calls, none panics: no channel is closed twice, and no message is sent to a closed one.
-- The histories, the channels and the dead letters stay within their bounds, and each subscription
-- has an open channel of its own.
pub run-IsBroker :
    (compile : String → Option (String → Bool)) (pb : PubSubBroker) (calls : List Call)
    → IsBroker pb
    → (pb' : PubSubBroker) × (run compile pb calls ≡ some pb') × IsBroker pb'
unfolding run
run-IsBroker compile pb [] w = (pb, refl, w)
run-IsBroker compile pb (c ∷ rest) w =
    let (pb', e, v) = step-Steps compile pb c w in
    let (last, f, u) = run-IsBroker compile pb' rest v in (last, rw (run, e) f, u)

slot-held :
    (topics : Map Topic) (topic id : String) (a : ℕ)
    → slot topics topic id ≡ some a
    → (t : Topic) × (lookup topic topics ≡ some t) × (lookup id t.subscribers ≡ some a)
unfolding slot
slot-held topics topic id a h = elim (Option-cases (lookup topic topics)) [
  | inl e ↦ absurd (ground (arith, h, e))
  | inr (t, e) ↦ (t, e, ground (arith, h, e))
]

poll-unknown :
    (pb : PubSubBroker) (id : String) (limit : ℕ)
    → lookup id pb.subscribers ≡ none
    → poll pb id limit ≡ done pb (unknown (subscriber_not_found id))
unfolding poll
poll-unknown pb id limit h = rw (poll, h) refl

-- An address that a subscription has is among the addresses of its topic.
among-addresses :
    (subs : Map ℕ) (id : String) (b : ℕ) → lookup id subs ≡ some b → among b (addresses subs) ≡ true
unfolding lookup among addresses
among-addresses [] id b h = absurd (cc)
among-addresses ((i, a) ∷ rest) id b h = elim (Bool-cases (str_eq i id)) [
  | inl hit ↦
      let first : some a ≡ some b = sym (rw hit refl) ∙ h in
      rw ((==_iff a b).1 (let same : a ≡ b = cc in same)) refl
  | inr miss ↦
      let later : lookup id rest ≡ some b = sym (rw miss refl) ∙ h in
      ground (arith, among-addresses rest id b later)
]

-- A message that is published reaches each subscription of its topic.
published_to :
    (pb : PubSubBroker) (topic id publisher : String) (b : ℕ) (sub : Subscriber) (payload : Bytes)
    (now now' : ℕ)
    → IsBroker pb
    → slot pb.topics topic id ≡ some b
    → get_elem? pb.heap b ≡ some sub
    → (pb' : PubSubBroker) × (n : ℕ) × (publish pb topic publisher payload now now' ≡ done pb' n)
      × (get_elem? pb'.heap b
          ≡ some (receive topic (message_of pb topic publisher payload now now') sub))
published_to pb topic id publisher b sub payload now now' w h e =
    let (pb', runs, v, got) = publish_lem pb topic publisher payload now now' w in
    let member =
      among-addresses (topic_of pb topic).subscribers id b (topic_of-slot pb topic id ∙ h) in
    (pb', _, runs, got b sub e ∙ rw member refl)

-- A subscriber of two topics that leaves one of them has no subscription to it any more, and is
-- unknown to the broker: a poll gives an error. The channel of the other subscription is as it was, and open; a message that is published to the
-- other topic is still put there, where the pattern wants it and the channel has room.
pub unsubscribe-forgets :
    (pb : PubSubBroker) (id topic other : String) (a b limit : ℕ) (sub : Subscriber)
    (publisher : String) (payload : Bytes) (now now' : ℕ)
    → IsBroker pb
    → slot pb.topics topic id ≡ some a
    → slot pb.topics other id ≡ some b
    → get_elem? pb.heap b ≡ some sub
    → topic ≢ other
    → (pb' : PubSubBroker) × (unsubscribe pb id topic ≡ done pb' none)
      × (poll pb' id limit ≡ done pb' (unknown (subscriber_not_found id)))
      × (slot pb'.topics topic id ≡ none)
      × (slot pb'.topics other id ≡ some b)
      × (get_elem? pb'.heap b ≡ some sub)
      × (sub.closed ≡ false)
      × ((pb'' : PubSubBroker) × (n : ℕ) × (publish pb' other publisher payload now now'
            ≡ done pb'' n)
          × (get_elem? pb''.heap b
              ≡ some (receive other (message_of pb' other publisher payload now now') sub)))
unfolding unsubscribe close_at
unsubscribe-forgets pb id topic other a b limit sub publisher payload now now' w h k at_b n =
    let (t, e, held) = slot-held pb.topics topic id a h in
    let (gone, at, c) = w.subscriptions.open_at topic id a h in
    let (same, at_same, o) = w.subscriptions.open_at other id b k in
    let left : Topic = record t { subscribers = erase id t.subscribers } in
    let closed : Subscriber = record gone { closed = true } in
    let pb' : PubSubBroker = record pb {
      topics = insert topic left pb.topics;
      subscribers = erase id pb.subscribers;
      heap = set pb.heap a closed;
    } in
    let apart : str_eq topic other ≡ false = ground (arith, eq_iff topic other, n) in
    let runs : unsubscribe pb id topic ≡ done pb' none =
      rw (unsubscribe, e, held, close_at, at, c) refl in
    let valid : IsBroker pb' = subst Runs runs (unsubscribe-Runs pb id topic w) in
    let stays : slot pb'.topics other id ≡ some b =
      slot-insert pb.topics topic left other id ∙ rw apart k in
    let kept : get_elem? pb'.heap b ≡ some sub =
      get_elem?-set_ne pb.heap a b closed
        (λ p. n (w.subscriptions.apart topic other id id b (h ∙ ap some p) k).0)
      ∙ at_b in
    let is_same : same ≡ sub = let x = sym at_same ∙ at_b in cc in
    (
      pb',
      runs,
      poll-unknown pb' id limit
          (lookup-erase id id pb.subscribers ∙ rw ((eq_iff id id).1 refl) refl),
      slot-insert pb.topics topic left topic id
          ∙ rw ((eq_iff topic topic).1 refl)
              (lookup-erase id id t.subscribers ∙ rw ((eq_iff id id).1 refl) refl),
      stays,
      kept,
      ap (λ (u : Subscriber). u.closed) (sym is_same) ∙ o,
      published_to pb' other id publisher b sub payload now now' valid stays kept,
    )
