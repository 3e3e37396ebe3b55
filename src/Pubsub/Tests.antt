-- ===== src/Pubsub/Tests.antt =====
-- The theorems on the broker, on one where "s" has subscribed to two topics.
use toll_mesh_store.Common.{
  ℕ, ◌≡◌, ◌≢◌, ◌≤◌, refl, sym, subst, ◌∙◌, Bool, true, false, ◌||◌, if◌then◌else◌, String, some,
  none, List, [], ◌∷◌, ◌++◌, Sorted, lookup, insert, Option, length, get_elem?, decimal, str_eq,
  eq_iff,
}
use toll_mesh_store.Pubsub.{
  Message, Subscriber, Topic, PubSubBroker, new_broker, topic_of, message_of, publish, unsubscribe,
  poll, messages, unknown, subscriber_not_found, done,
}
use toll_mesh_store.Pubsub.Gossip.{has_id, earlier, merge_history}
use toll_mesh_store.Pubsub.Valid.{IsBroker, slot, new_broker-IsBroker}
use toll_mesh_store.Pubsub.Sending.{receive, among, receivers, addresses}
use toll_mesh_store.Pubsub.Running.{addrs, publish_lem, poll_lem}
use toll_mesh_store.Pubsub.Merging.{Once, union, merge_history_lem}
use toll_mesh_store.Pubsub.Calls.{
  Call, subscribing, publishing, run, run-IsBroker, unsubscribe-forgets,
}

-- Every pattern compiles, to the test for that very text.
abbrev compile : String → Option (String → Bool)
compile pattern = some (str_eq pattern)

abbrev calls : List Call
calls =
    subscribing "s" "news" "" 1_000_000
    ∷ subscribing "s" "chat" "" 2_000_000
    ∷ publishing "news" "p" (7 ∷ []) 3_000_000 3_000_001
    ∷ []

run-IsBroker_example :
    (pb : PubSubBroker) × (run compile (new_broker 10 "a") calls ≡ some pb) × IsBroker pb
run-IsBroker_example = run-IsBroker compile (new_broker 10 "a") calls (new_broker-IsBroker 10 "a")

abbrev message : String → ℕ → Message
message id timestamp = record {
  topic = "news";
  payload = 7 ∷ [];
  timestamp = timestamp;
  publisher = "p";
  id = id;
}

abbrev sub : List Message → ℕ → Subscriber
sub channel created = record {
  id = "s";
  channel = channel;
  closed = false;
  pattern = "";
  regex = none;
  created = created;
}

abbrev topic : String → ℕ → List Message → Topic
topic name a history = record {
  name = name;
  subscribers = ("s", a) ∷ [];
  messages = history;
  max_history = 100;
}

abbrev broker : PubSubBroker
broker = record {
  topics =
      ("news", topic "news" 0 (message "news-3000001-a" 3 ∷ [])) ∷ ("chat", topic "chat" 1 []) ∷ [];
  subscribers = ("s", 1) ∷ [];
  heap = sub (message "news-3000001-a" 3 ∷ []) 1 ∷ sub [] 2 ∷ [];
  dead_letters = [];
  max_dlq_size = 10;
  node_id = "a";
}

broker_lem : run compile (new_broker 10 "a") calls ≡ some broker
unfolding run new_broker lookup insert decimal
broker_lem = refl

same-IsBroker : (a b : PubSubBroker) → some a ≡ some b → IsBroker a → IsBroker b
same-IsBroker a b e w = subst IsBroker (let same : a ≡ b = cc in same) w

broker-IsBroker : IsBroker broker
broker-IsBroker =
    let (pb, e, w) = run-IsBroker_example in same-IsBroker pb broker (sym e ∙ broker_lem) w

publish_lem_example :
    (pb' : PubSubBroker) × (publish broker "chat" "p" (8 ∷ []) 4_000_000 4_000_001
      ≡ done pb' (receivers "chat" broker.heap (addrs broker "chat")))
    × IsBroker pb'
    × ((a : ℕ) (s : Subscriber)
        → get_elem? broker.heap a ≡ some s
        → get_elem? pb'.heap a
          ≡ some (
              if among a (addrs broker "chat")
              then receive "chat" (message_of broker "chat" "p" (8 ∷ []) 4_000_000 4_000_001) s
              else s))
publish_lem_example = publish_lem broker "chat" "p" (8 ∷ []) 4_000_000 4_000_001 broker-IsBroker

-- One subscriber has the message.
receivers_of_chat : receivers "chat" broker.heap (addrs broker "chat") ≡ 1
unfolding receivers addresses lookup topic_of
receivers_of_chat = refl

-- A broker whose subscriber has two messages in its channel.
abbrev waiting : PubSubBroker
waiting =
    let two = message "news-3000001-a" 3 ∷ message "news-4000001-a" 4 ∷ [] in
    record (new_broker 10 "a") {
      topics = ("news", topic "news" 0 two) ∷ [];
      subscribers = ("s", 0) ∷ [];
      heap = sub two 1 ∷ [];
    }

abbrev waits : List Call
waits =
    subscribing "s" "news" "" 1_000_000
    ∷ publishing "news" "p" (7 ∷ []) 3_000_000 3_000_001
    ∷ publishing "news" "p" (7 ∷ []) 4_000_000 4_000_001
    ∷ []

waiting_lem : run compile (new_broker 10 "a") waits ≡ some waiting
unfolding run new_broker lookup insert decimal
waiting_lem = refl

waiting-IsBroker : IsBroker waiting
waiting-IsBroker =
    let (pb, e, w) = run-IsBroker compile (new_broker 10 "a") waits (new_broker-IsBroker 10 "a") in
    same-IsBroker pb waiting (sym e ∙ waiting_lem) w

poll_lem_example :
    (pb' : PubSubBroker) × (read rest : List Message) × (poll waiting "s" 1
      ≡ done pb' (messages read))
    × IsBroker pb'
    × (read ++ rest ≡ message "news-3000001-a" 3 ∷ message "news-4000001-a" 4 ∷ [])
    × (length read ≡ 1)
    × (get_elem? pb'.heap 0 ≡ some (sub rest 1))
    × ((b : ℕ) → 0 ≢ b → get_elem? pb'.heap b ≡ get_elem? waiting.heap b)
unfolding lookup new_broker
poll_lem_example =
    poll_lem waiting "s" 1 0 (sub (message "news-3000001-a" 3 ∷ message "news-4000001-a" 4 ∷ []) 1)
      waiting-IsBroker refl refl

merge_history_lem_example :
    Once (merge_history (topic "news" 0 (message "x" 3 ∷ [])) (message "y" 2 ∷ [])).messages
    × Sorted earlier
        (merge_history (topic "news" 0 (message "x" 3 ∷ [])) (message "y" 2 ∷ [])).messages
    × (length (merge_history (topic "news" 0 (message "x" 3 ∷ [])) (message "y" 2 ∷ [])).messages
        ≤ 100)
    × ((id : String)
        → has_id id
            (merge_history (topic "news" 0 (message "x" 3 ∷ [])) (message "y" 2 ∷ [])).messages
          ≡ true
        → (has_id id (message "x" 3 ∷ []) || has_id id (message "y" 2 ∷ [])) ≡ true)
    × (length (union (topic "news" 0 (message "x" 3 ∷ [])) (message "y" 2 ∷ [])) ≤ 100
        → (id : String)
        → has_id id
            (merge_history (topic "news" 0 (message "x" 3 ∷ [])) (message "y" 2 ∷ [])).messages
          ≡ (has_id id (message "x" 3 ∷ []) || has_id id (message "y" 2 ∷ [])))
unfolding has_id
merge_history_lem_example =
    merge_history_lem (topic "news" 0 (message "x" 3 ∷ [])) (message "y" 2 ∷ []) (refl, tt)

unsubscribe-forgets_example :
    (pb' : PubSubBroker) × (unsubscribe broker "s" "news" ≡ done pb' none)
    × (poll pb' "s" 5 ≡ done pb' (unknown (subscriber_not_found "s")))
    × (slot pb'.topics "news" "s" ≡ none)
    × (slot pb'.topics "chat" "s" ≡ some 1)
    × (get_elem? pb'.heap 1 ≡ some (sub [] 2))
    × (false ≡ false)
    × ((pb'' : PubSubBroker) × (n : ℕ) × (publish pb' "chat" "p" (8 ∷ []) 4_000_000 4_000_001
          ≡ done pb'' n)
        × (get_elem? pb''.heap 1
            ≡ some (
                receive "chat"
                  (message_of pb' "chat" "p" (8 ∷ []) 4_000_000 4_000_001)
                  (sub [] 2))))
unfolding slot lookup
unsubscribe-forgets_example =
    unsubscribe-forgets broker "s" "news" "chat" 0 1 5 (sub [] 2) "p" (8 ∷ []) 4_000_000 4_000_001
      broker-IsBroker refl refl refl (λ e. absurd (let x = (eq_iff "news" "chat").1 e in cc))
