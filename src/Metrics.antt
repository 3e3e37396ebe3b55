-- ===== src/Metrics.antt =====
-- metrics/metrics.go: the operation counters and the bounded windows of latency samples. A counter
-- is an atomic int64 that is only read and incremented.
pub mod Window
pub mod Tests
use toll_mesh_store.Common.{
  ℕ, ◌+◌, ◌%◌, Map, Bool, List, ◌∷◌, length, take, set, ltb, if◌then◌else◌, replicate, [],
}

abbrev pub max_latency_samples : ℕ
max_latency_samples = 10000

-- `data` has one length for good: the capacity that the ring was made with.
pub record LatencyRing : Type 0 where
  pub samples : List ℕ
  pub cursor : ℕ
  pub count : ℕ

unfoldable pub new_latency_ring : ℕ → LatencyRing
new_latency_ring capacity = record { samples = replicate capacity 0; cursor = 0; count = 0 }

unfoldable pub add : LatencyRing → ℕ → LatencyRing
add r v =
    let size = length r.samples in
    record {
      samples = set r.samples r.cursor v;
      cursor = (r.cursor + 1) % size;
      count = if ltb r.count size then r.count + 1 else r.count;
    }

unfoldable pub values : LatencyRing → List ℕ
values r = take r.count r.samples

pub record Metrics : Type 0 where
  pub consume_total : ℕ
  pub consume_allowed : ℕ
  pub consume_denied : ℕ
  pub seen_total : ℕ
  pub seen_replays : ℕ
  pub get_total : ℕ
  pub get_hits : ℕ
  pub get_misses : ℕ
  pub set_total : ℕ
  pub cache_evictions : ℕ
  pub consume_latencies : LatencyRing
  pub seen_latencies : LatencyRing
  pub get_latencies : LatencyRing
  pub set_latencies : LatencyRing
  pub gossip_messages_in : ℕ
  pub gossip_messages_out : ℕ
  pub gossip_errors : ℕ

unfoldable pub new_metrics : Metrics
unfolding new_latency_ring
new_metrics = record {
  consume_total = 0;
  consume_allowed = 0;
  consume_denied = 0;
  seen_total = 0;
  seen_replays = 0;
  get_total = 0;
  get_hits = 0;
  get_misses = 0;
  set_total = 0;
  cache_evictions = 0;
  consume_latencies = new_latency_ring max_latency_samples;
  seen_latencies = new_latency_ring max_latency_samples;
  get_latencies = new_latency_ring max_latency_samples;
  set_latencies = new_latency_ring max_latency_samples;
  gossip_messages_in = 0;
  gossip_messages_out = 0;
  gossip_errors = 0;
}

unfoldable pub record_consume : Metrics → Bool → ℕ → Metrics
record_consume m allowed latency = record m {
  consume_total = m.consume_total + 1;
  consume_allowed = if allowed then m.consume_allowed + 1 else m.consume_allowed;
  consume_denied = if allowed then m.consume_denied else m.consume_denied + 1;
  consume_latencies = add m.consume_latencies latency;
}

unfoldable pub record_seen : Metrics → Bool → ℕ → Metrics
record_seen m replay latency = record m {
  seen_total = m.seen_total + 1;
  seen_replays = if replay then m.seen_replays + 1 else m.seen_replays;
  seen_latencies = add m.seen_latencies latency;
}

unfoldable pub record_get : Metrics → Bool → ℕ → Metrics
record_get m hit latency = record m {
  get_total = m.get_total + 1;
  get_hits = if hit then m.get_hits + 1 else m.get_hits;
  get_misses = if hit then m.get_misses else m.get_misses + 1;
  get_latencies = add m.get_latencies latency;
}

unfoldable pub record_set : Metrics → ℕ → Metrics
record_set m latency = record m {
  set_total = m.set_total + 1;
  set_latencies = add m.set_latencies latency;
}

unfoldable pub record_cache_eviction : Metrics → Metrics
record_cache_eviction m = record m { cache_evictions = m.cache_evictions + 1 }

unfoldable pub record_gossip_message_in : Metrics → Metrics
record_gossip_message_in m = record m { gossip_messages_in = m.gossip_messages_in + 1 }

unfoldable pub record_gossip_message_out : Metrics → Metrics
record_gossip_message_out m = record m { gossip_messages_out = m.gossip_messages_out + 1 }

unfoldable pub record_gossip_error : Metrics → Metrics
record_gossip_error m = record m { gossip_errors = m.gossip_errors + 1 }

unfoldable pub snapshot : Metrics → Map ℕ
snapshot m =
    ("consume_total", m.consume_total)
    ∷ ("consume_allowed", m.consume_allowed)
    ∷ ("consume_denied", m.consume_denied)
    ∷ ("seen_total", m.seen_total)
    ∷ ("seen_replays", m.seen_replays)
    ∷ ("get_total", m.get_total)
    ∷ ("get_hits", m.get_hits)
    ∷ ("get_misses", m.get_misses)
    ∷ ("set_total", m.set_total)
    ∷ ("cache_evictions", m.cache_evictions)
    ∷ ("gossip_messages_in", m.gossip_messages_in)
    ∷ ("gossip_messages_out", m.gossip_messages_out)
    ∷ ("gossip_errors", m.gossip_errors)
    ∷ []
