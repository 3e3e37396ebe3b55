-- ===== src/Stream/Tests.antt =====
-- The theorems on streams and consumer groups, each on small ones.
use toll_mesh_store.Common.{
  ℕ, ◌≡◌, ◌≢◌, refl, arith, String, str_eq, false, [], ◌∷◌, lookup, take, drop, eq_iff, Perm,
  is_some, true,
}
use toll_mesh_store.Stream.{
  StreamEntry, Stream, RetentionPolicy, young, apply_retention, merge_snapshot,
}
use toll_mesh_store.Stream.Range.{position, range}
use toll_mesh_store.Stream.Index.{find, IsValid}
use toll_mesh_store.Stream.Retention.{Within, cut, apply_retention_lem}
use toll_mesh_store.Stream.Reading.{range-after}
use toll_mesh_store.Stream.Merging.{merge_snapshot-IsValid}
use toll_mesh_store.Stream.Groups.{
  ConsumerGroup, ConsumerGroupMember, new_consumer_group, rebalance_assignment,
}
use toll_mesh_store.Stream.Groups.Assignment.{assigned, rebalance_assignment-assigned}

abbrev entry : String → ℕ → ℕ → StreamEntry
entry id ts seq = record {
  id = id;
  timestamp = ts;
  fields = ("f", "v") ∷ [];
  node = "a";
  sequence = seq;
  vector_clock = [];
}

abbrev policy : RetentionPolicy
policy = record { max_age = 100; max_size = 100; max_entries = 2 }

abbrev stream : Stream
stream = record {
  name = "s";
  entries = entry "1" 10 1 ∷ entry "2" 20 2 ∷ [];
  entry_index = ("1", entry "1" 10 1) ∷ ("2", entry "2" 20 2) ∷ [];
  last_sequence = 2;
  timestamp = 20;
  node_id = "a";
  retention_policy = policy;
}

stream-IsValid : IsValid stream
unfolding find lookup
stream-IsValid = record { distinct = (refl, (refl, tt)); agrees = λ id. refl }

range-after_example : range stream "1" "-" 5 ≡ take 5 (entry "2" 20 2 ∷ [])
unfolding lookup position
range-after_example =
    range-after stream [] (entry "2" 20 2 ∷ []) (entry "1" 10 1) 5 refl refl refl
      (λ h. ground (arith, eq_iff "1" "0", h)) (λ h. ground (arith, eq_iff "1" "", h))

apply_retention_lem_example :
    Within 30 stream.retention_policy (apply_retention 30 stream).entries
    × ((apply_retention 30 stream).entries
        ≡ drop (cut 30 stream) (young 30 stream.retention_policy.max_age stream.entries))
apply_retention_lem_example = apply_retention_lem 30 stream

merge_snapshot-IsValid_example : IsValid (merge_snapshot stream (entry "3" 15 1 ∷ []) 30)
merge_snapshot-IsValid_example =
    merge_snapshot-IsValid stream (entry "3" 15 1 ∷ []) 30 stream-IsValid

abbrev member : String → ConsumerGroupMember
member id = record {
  id = id;
  group = "g";
  stream = "s";
  last_offset = "";
  joined_at = 5;
  last_heartbeat = 5;
  node = "a";
  vector_clock = [];
}

abbrev group : ConsumerGroup
group = record (new_consumer_group "g" "s" "a" 5) {
  members = ("c", member "c") ∷ ("d", member "d") ∷ [];
  offsets = ("c", "1") ∷ ("d", "0") ∷ [];
}

not_empty : (c d : String) → str_eq c d ≡ false → c ≢ d
not_empty c d h e = ground (arith, eq_iff c d, h, e)

rebalance_assignment-assigned_example :
    Perm (assigned (rebalance_assignment group stream.entries)) stream.entries
    × ((k : String)
        → is_some (lookup k (rebalance_assignment group stream.entries)) ≡ true
        → is_some (lookup k group.members) ≡ true)
rebalance_assignment-assigned_example =
    rebalance_assignment-assigned group stream.entries
      (not_empty "c" "" refl, omega arith, (not_empty "d" "" refl, omega arith, tt)) (omega arith)
