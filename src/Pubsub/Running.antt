-- ===== src/Pubsub/Running.antt =====
-- Every call keeps a broker valid, and none panics (pubsub/pubsub.go).
use toll_mesh_store.Common.{
  ℕ, zero, suc, ◌≡◌, ◌≢◌, ◌≤◌, ◌<◌, inl, inr, refl, sym, ap, subst, ◌∙◌, Bool, true, false, ◌==◌,
  ◌&&◌, ltb, if◌then◌else◌, String, Bytes, lookup, insert, some, List, [], ◌∷◌, ◌++◌, length,
  length-append, length-drop, get_elem?, get_elem?-lt, set, get_elem?-set_self, get_elem?-set_ne,
  drop, take, arith, Bool-cases, Option-cases, ℕ_discrete,
}
use toll_mesh_store.Pubsub.{
  Message, Subscriber, Topic, PubSubBroker, topic_of, put_topic, message_of, capacity, Delivery,
  delivered, remember, publish, done, poll, messages, matches,
}
use toll_mesh_store.Pubsub.Valid.{IsBroker, topic_of-history, slot-same, history-insert, Apart-same}
use toll_mesh_store.Pubsub.Subscribing.{Runs}
use toll_mesh_store.Pubsub.Unsubscribing.{room-set, known-set}
use toll_mesh_store.Pubsub.Addresses.{topic_of-Opened, topic_of-Distinct}
use toll_mesh_store.Pubsub.Sending.{
  receive, addresses, among, receivers, Delivered, deliver-Delivered,
}

some_inj : (a b : Subscriber) → some a ≡ some b → a ≡ b
some_inj a b h = cc

get_elem?-some :
    (heap : List Subscriber) (a : ℕ)
    → a < length heap
    → (sub : Subscriber) × (get_elem? heap a ≡ some sub)
get_elem?-some [] a h = elim h [ ]
get_elem?-some (s ∷ heap) zero h = (s, refl)
get_elem?-some (s ∷ heap) (suc a) h = get_elem?-some heap a (omega arith)

remember_bound :
    (t : Topic) (msg : Message)
    → t.max_history ≡ 100
    → length t.messages ≤ 100
    → length (remember t msg).messages ≤ 100
unfolding remember
remember_bound t msg m l =
    ground (arith, length-append t.messages (msg ∷ []), length-drop 1 (t.messages ++ msg ∷ []))

remember_same :
    (t : Topic) (msg : Message)
    → ((remember t msg).subscribers ≡ t.subscribers)
      × ((remember t msg).max_history ≡ t.max_history)
unfolding remember
remember_same t msg = (refl, refl)

receive_bound :
    (topic : String) (msg : Message) (sub : Subscriber)
    → length sub.channel ≤ capacity
    → (length (receive topic msg sub).channel ≤ capacity)
      × ((receive topic msg sub).closed ≡ sub.closed)
unfolding receive
receive_bound topic msg sub h =
    elim (Bool-cases (matches sub.regex topic && ltb (length sub.channel) capacity)) [
      | inl w ↦ rw w (ground (arith, length-append sub.channel (msg ∷ []), w), refl)
      | inr n ↦ rw n (h, refl)
    ]

-- A subscriber after a round, which has received the message or is as it was.
abbrev round : String → Message → Bool → Subscriber → Subscriber
round topic msg b sub = if b then receive topic msg sub else sub

round_bound :
    (topic : String) (msg : Message) (sub : Subscriber) (b : Bool)
    → length sub.channel ≤ capacity
    → (length (round topic msg b sub).channel ≤ capacity)
      × ((round topic msg b sub).closed ≡ sub.closed)
round_bound topic msg sub true h = receive_bound topic msg sub h
round_bound topic msg sub false h = (h, refl)

abbrev pub before : PubSubBroker → Delivery
before pb = record { heap = pb.heap; dead_letters = pb.dead_letters; count = 0 }

abbrev pub addrs : PubSubBroker → String → List ℕ
addrs pb topic = addresses (topic_of pb topic).subscribers

module _ (pb : PubSubBroker) (w : IsBroker pb) (topic : String) (msg : Message) where
  Delivered-IsBroker :
      (d : Delivery)
      → Delivered pb.max_dlq_size topic msg (addrs pb topic) (before pb) d
      → IsBroker (record (put_topic pb topic (remember (topic_of pb topic) msg)) {
        heap = d.heap;
        dead_letters = d.dead_letters;
      })
  Delivered-IsBroker d s =
      let t = topic_of pb topic in
      let (m, l, k) = topic_of-history pb topic w in
      let (subs, max) = remember_same t msg in
      record {
        subscriptions =
            Apart-same pb.topics (insert topic (remember t msg) pb.topics) pb.heap d.heap
              w.subscriptions (λ n i. slot-same pb topic (remember t msg) n i subs)
              (λ a o.
                let (sub, e, c) = o in
                let b = among a (addrs pb topic) in
                let (r, f) = round_bound topic msg sub b (w.room a sub e) in
                (round topic msg b sub, s.got a sub e, f ∙ c));
        known = λ id a e. omega (arith, w.known id a e, s.size);
        history =
            history-insert pb topic (remember t msg) w (max ∙ m) (remember_bound t msg m l)
              (rw subs k);
        room = λ a sub e.
            let inside = get_elem?-lt d.heap a sub e in
            let (old, f) = get_elem?-some pb.heap a (omega (arith, s.size)) in
            let b = among a (addrs pb topic) in
            let (r, c) = round_bound topic msg old b (w.room a old f) in
            let x = s.got a old f in
            let same : round topic msg b old ≡ sub = some_inj _ _ (sym x ∙ e) in
            subst (λ (u : Subscriber). length u.channel ≤ capacity) same r;
        dead = s.dead w.dead;
      }

-- A message that is published to a topic stands at the end of the channel of each subscriber of
-- that topic whose pattern the topic matches and whose channel has room, and of no other channel; the
-- number that the call returns is theirs. The call does not panic, and keeps the broker valid.
pub publish_lem :
    (pb : PubSubBroker) (topic publisher : String) (payload : Bytes) (now now' : ℕ)
    → IsBroker pb
    → (pb' : PubSubBroker) × (publish pb topic publisher payload now now'
        ≡ done pb' (receivers topic pb.heap (addrs pb topic)))
      × IsBroker pb'
      × ((a : ℕ) (sub : Subscriber)
          → get_elem? pb.heap a ≡ some sub
          → get_elem? pb'.heap a
            ≡ some (
                if among a (addrs pb topic)
                then receive topic (message_of pb topic publisher payload now now') sub
                else sub))
unfolding publish
publish_lem pb topic publisher payload now now' w =
    let msg = message_of pb topic publisher payload now now' in
    let t = topic_of pb topic in
    let (d, e, s) =
      deliver-Delivered pb.max_dlq_size topic msg t.subscribers (before pb)
        (topic_of-Opened pb topic w) (topic_of-Distinct pb topic w) in
    let mid = put_topic pb topic (remember t msg) in
    (
      record mid { heap = d.heap; dead_letters = d.dead_letters },
      ap (delivered mid) e
          ∙ ap (done (record mid { heap = d.heap; dead_letters = d.dead_letters }))
              (omega (arith, s.counted)),
      Delivered-IsBroker pb w topic msg d s,
      s.got,
    )

length-drop-le : (n : ℕ) (xs : List Message) → length (drop n xs) ≤ length xs
length-drop-le n xs = omega (arith, length-drop n xs)

polled-IsBroker :
    (pb : PubSubBroker) (a n : ℕ) (sub : Subscriber)
    → IsBroker pb
    → get_elem? pb.heap a ≡ some sub
    → IsBroker (record pb { heap = set pb.heap a (record sub { channel = drop n sub.channel }) })
polled-IsBroker pb a n sub w e =
    let new : Subscriber = record sub { channel = drop n sub.channel } in
    record {
      subscriptions =
          Apart-same pb.topics pb.topics pb.heap (set pb.heap a new) w.subscriptions
            (λ topic id. refl)
            (λ b o.
              let (s, f, c) = o in
              elim (ℕ_discrete a b) [
                | no m ↦ (s, get_elem?-set_ne pb.heap a b new m ∙ f, c)
                | yes p ↦
                    let same : s ≡ sub =
                      some_inj s sub (sym f ∙ ap (get_elem? pb.heap) (sym p) ∙ e) in
                    (
                      new,
                      ap (get_elem? (set pb.heap a new)) (sym p)
                          ∙ get_elem?-set_self pb.heap a new (get_elem?-lt pb.heap a sub e),
                      ap (λ (u : Subscriber). u.closed) (sym same) ∙ c,
                    )
              ]);
      known = known-set pb a new w;
      history = w.history;
      room = room-set pb a sub new w e (length-drop-le n sub.channel);
      dead = w.dead;
    }

take-drop : (n : ℕ) (xs : List Message) → take n xs ++ drop n xs ≡ xs
take-drop zero xs = refl
take-drop (suc n) [] = refl
take-drop (suc n) (x ∷ xs) = ap (λ rest. x ∷ rest) (take-drop n xs)

-- How many messages a poll asks for.
abbrev pub most : ℕ → ℕ
most limit = if limit == 0 then 1 else limit

-- The smaller of two numbers.
abbrev pub least : ℕ → ℕ → ℕ
least m n = if ltb m n then m else n

length-take : (n : ℕ) (xs : List Message) → length (take n xs) ≡ least n (length xs)
length-take zero xs = ground arith
length-take (suc n) [] = ground arith
length-take (suc n) (x ∷ xs) = ground (arith, length-take n xs)

-- A poll by a subscriber that the broker knows reads the oldest messages of its channel: as many as
-- it asks for, and one where it asks for none, or all where there are no more. The others stay
-- there in their order, and no other channel changes.
pub poll_lem :
    (pb : PubSubBroker) (id : String) (limit a : ℕ) (sub : Subscriber)
    → IsBroker pb
    → lookup id pb.subscribers ≡ some a
    → get_elem? pb.heap a ≡ some sub
    → (pb' : PubSubBroker) × (read rest : List Message) × (poll pb id limit
        ≡ done pb' (messages read))
      × IsBroker pb'
      × (read ++ rest ≡ sub.channel)
      × (length read ≡ least (most limit) (length sub.channel))
      × (get_elem? pb'.heap a ≡ some (record sub { channel = rest }))
      × ((b : ℕ) → a ≢ b → get_elem? pb'.heap b ≡ get_elem? pb.heap b)
unfolding poll
poll_lem pb id limit a sub w k e =
    let n = most limit in
    let new : Subscriber = record sub { channel = drop n sub.channel } in
    (
      record pb { heap = set pb.heap a new },
      take n sub.channel,
      drop n sub.channel,
      rw (poll, k, e) refl,
      polled-IsBroker pb a n sub w e,
      take-drop n sub.channel,
      length-take n sub.channel,
      get_elem?-set_self pb.heap a new (get_elem?-lt pb.heap a sub e),
      λ b m. get_elem?-set_ne pb.heap a b new m,
    )

pub poll-Runs :
    (pb : PubSubBroker) (id : String) (limit : ℕ) → IsBroker pb → Runs (poll pb id limit)
unfolding poll
poll-Runs pb id limit w = elim (Option-cases (lookup id pb.subscribers)) [
  | inl e ↦ rw (poll, e) w
  | inr (a, e) ↦
      let (sub, f) = get_elem?-some pb.heap a (w.known id a e) in
      rw (poll, e, f) (polled-IsBroker pb a (most limit) sub w f)
]
