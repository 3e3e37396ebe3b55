-- ===== src/Pubsub/Gossip.antt =====
-- The gossip of message histories (Snapshot and MergeSnapshot of pubsub/pubsub.go).
use toll_mesh_store.Common.{
  ℕ, ◌-◌, Bool, true, false, ltb, if◌then◌else◌, String, str_eq, Map, List, [], ◌∷◌, ◌++◌, length,
  drop, sort,
}
use toll_mesh_store.Pubsub.{Message, Topic, PubSubBroker, topic_of, put_topic}

unfoldable pub histories : Map Topic → Map (List Message)
histories [] = []
histories ((name, t) ∷ rest) = (name, t.messages) ∷ histories rest

unfoldable pub snapshot : PubSubBroker → Map (List Message)
unfolding histories
snapshot pb = histories pb.topics

-- Whether a message of this identifier is there: `seen` has exactly these.
unfoldable pub has_id : String → List Message → Bool
has_id id [] = false
has_id id (m ∷ rest) = if str_eq m.id id then true else has_id id rest

unfoldable pub add_unseen : List Message → List Message → List Message
unfolding has_id
add_unseen known [] = known
add_unseen known (m ∷ rest) = add_unseen (if has_id m.id known then known else known ++ m ∷ []) rest

abbrev pub earlier : Message → Message → Bool
earlier m n = ltb m.timestamp n.timestamp

unfoldable pub keep_last : ℕ → List Message → List Message
keep_last max all = if ltb max (length all) then drop (length all - max) all else all

unfoldable pub merge_history : Topic → List Message → Topic
unfolding add_unseen keep_last sort
merge_history t peers = record t {
  messages = keep_last t.max_history (sort earlier (add_unseen t.messages peers));
}

-- A topic with no messages is passed over.
unfoldable pub merge_topic : PubSubBroker → String → List Message → PubSubBroker
unfolding merge_history topic_of
merge_topic pb name [] = pb
merge_topic pb name (m ∷ rest) = put_topic pb name (merge_history (topic_of pb name) (m ∷ rest))

unfoldable pub merge_snapshot : PubSubBroker → Map (List Message) → PubSubBroker
unfolding merge_topic
merge_snapshot pb [] = pb
merge_snapshot pb ((name, peers) ∷ rest) = merge_snapshot (merge_topic pb name peers) rest
