-- ===== src/Manager/Tests.antt =====
-- The theorems on the manager of the queues, on a queue of two jobs, and those on the gossip of a queue.
use toll_mesh_store.Common.{
  ℕ, ◌≡◌, ◌⊎◌, refl, arith, String, some, none, false, [], ◌∷◌, Sorted, lookup, Version, ap,
  get_elem?, inl, inr, eq_iff, str_eq, length, insert, Perm, ◌++◌,
}
use toll_mesh_store.Queue.{
  JobStatus, pending, completed, failed, Job, JobQueue, new_job_queue, find_job, job_before,
  all_found, done, enqueue,
}
use toll_mesh_store.Queue.Gossip
use toll_mesh_store.Queue.Entries.{entry, Pointed, version_of}
use toll_mesh_store.Queue.Merging.{Among, AtLeast, merge_snapshot_lem}
use toll_mesh_store.Queue.Stale.{snapshot-merge_snapshot}
use toll_mesh_store.Queue.Enqueueing.{id_of, enqueue_lem, enqueue_collides}
use toll_mesh_store.Manager.{
  JobManager, new_job_manager, get_queue, crashed, find_dead, replay_dead_letter,
}
use toll_mesh_store.Manager.Cleanup.{cleanup_queue, evict}
use toll_mesh_store.Manager.Eviction.{Listed, Listed-cases, here, there}
use toll_mesh_store.Manager.Active.{Agrees, Cleaned, cleanup_queue_lem}
use toll_mesh_store.Manager.Calls.{replay_dead_letter-crashes, evict-loses}

abbrev job : String → JobStatus → ℕ → Job
job id status updated_at = record {
  id = id;
  queue = "q";
  payload = [];
  status = status;
  priority = 5;
  timestamp = 1;
  vector_clock = [];
  retry_count = 0;
  max_retries = 3;
  processed_by = "";
  result = [];
  error = "";
  created_at = 1;
  updated_at = updated_at;
  deadline_at = 0;
  process_started = 0;
  process_ended = 0;
  node = "a";
}

-- "x" waits and "y" has failed.
abbrev queue : JobQueue
queue = record (new_job_queue "q" 5_000_000 "a") {
  heap = job "x" pending 2 ∷ job "y" failed 3 ∷ [];
  jobs = 0 ∷ 1 ∷ [];
  job_index = ("x", 0) ∷ ("y", 1) ∷ [];
  pending_jobs = "x" ∷ [];
  dead_letters = 1 ∷ [];
}

queue-Pointed : Pointed queue.heap queue.job_index
unfolding lookup
queue-Pointed job_id a h = ground (arith, eq_iff "x" job_id, eq_iff "y" job_id, h)

merge_snapshot_lem_example :
    (jq' : JobQueue) × (Gossip.merge_snapshot queue (job "x" completed 9 ∷ []) ≡ some jq')
    × Sorted (job_before jq') jq'.pending_jobs
    × ((job_id : String)
        → (entry jq' job_id ≡ entry queue job_id)
          ⊎ ((j : Job) × Among j (job "x" completed 9 ∷ [])
              × (j.id ≡ job_id)
              × (entry jq' job_id ≡ some j)))
    × ((job_id : String) (v : Version)
        → AtLeast v (entry queue job_id)
        → AtLeast v (entry jq' job_id))
    × ((j : Job) → Among j (job "x" completed 9 ∷ []) → AtLeast (version_of j) (entry jq' j.id))
unfolding all_found find_job lookup
merge_snapshot_lem_example = merge_snapshot_lem queue (job "x" completed 9 ∷ []) queue-Pointed refl

-- The queue after the merge of a completed "x".
abbrev merged : JobQueue
merged = record queue {
  heap = job "x" pending 2 ∷ job "y" failed 3 ∷ job "x" completed 9 ∷ [];
  job_index = ("x", 2) ∷ ("y", 1) ∷ [];
  pending_jobs = [];
}

merged_lem : Gossip.merge_snapshot queue (job "x" completed 9 ∷ []) ≡ some merged
unfolding Gossip.merge_snapshot lookup insert new_job_queue
merged_lem = refl

snapshot-merge_snapshot_example : Gossip.snapshot merged ≡ Gossip.snapshot queue
unfolding find_job lookup
snapshot-merge_snapshot_example =
    snapshot-merge_snapshot queue merged (job "x" completed 9 ∷ []) queue-Pointed (omega arith)
      (refl, tt) merged_lem

enqueue_lem_example :
    (jq' : JobQueue) × (new : Job) × (enqueue queue (7 ∷ []) 5 3 1000 2_000_000
      ≡ done jq' (length queue.heap))
    × (entry jq' (id_of queue 2_000_000) ≡ some new)
    × (new.status ≡ pending)
    × (new.payload ≡ 7 ∷ [])
    × (new.priority ≡ 5)
    × (new.max_retries ≡ 3)
    × ((i : String) → str_eq (id_of queue 2_000_000) i ≡ false → entry jq' i ≡ entry queue i)
    × Sorted (job_before jq') jq'.pending_jobs
    × Perm jq'.pending_jobs (queue.pending_jobs ++ id_of queue 2_000_000 ∷ [])
    × (jq'.jobs ≡ queue.jobs ++ length queue.heap ∷ [])
    × (jq'.processing_jobs ≡ queue.processing_jobs)
unfolding all_found find_job lookup
enqueue_lem_example = enqueue_lem queue (7 ∷ []) 5 3 1000 2_000_000 queue-Pointed refl

enqueue_collides_example :
    (jq' : JobQueue) × (enqueue queue (7 ∷ []) 5 3 1000 2_000_001 ≡ done jq' (length queue.heap))
    × ((peer : Job)
        → peer.id ≡ id_of (new_job_queue "q" 0 "b") 5_001
        → (Gossip.merge_job jq' peer).jobs ≡ jq'.jobs)
unfolding all_found find_job lookup new_job_queue
enqueue_collides_example =
    enqueue_collides queue (new_job_queue "q" 0 "b") (7 ∷ []) 5 3 1000 2_000_001 5_001 queue-Pointed
      refl refl refl

Listed-two : (a : ℕ) → Listed a (0 ∷ 1 ∷ []) → (a ≡ 0) ⊎ (a ≡ 1)
Listed-two a l = elim (Listed-cases a l) [
  | inl e ↦ inl e
  | inr m ↦ elim (Listed-cases a m) [ inl e ↦ inr e | inr n ↦ elim (Listed-cases a n) [ ] ]
]

queue-Agrees : Agrees queue
unfolding lookup new_job_queue
queue-Agrees a j l e = elim (Listed-two a l) [
  | inl p ↦
      let same : j ≡ job "x" pending 2 = let x = ap (get_elem? queue.heap) p in cc in
      rw (same, p) refl
  | inr p ↦
      let same : j ≡ job "y" failed 3 = let x = ap (get_elem? queue.heap) p in cc in
      rw (same, p) refl
]

cleanup_queue_lem_example :
    (q' : JobQueue) × (cleanup_queue queue 100 ≡ some q') × Cleaned queue 100 q'
unfolding all_found find_job lookup new_job_queue
cleanup_queue_lem_example = cleanup_queue_lem queue 100 queue-Agrees refl refl

-- The cleanup has dropped the failed "y", which is a dead letter still.
abbrev manager : JobManager
manager = record (new_job_manager "a") {
  queues = ("q", record queue { jobs = 0 ∷ []; job_index = ("x", 0) ∷ [] }) ∷ [];
}

replay_dead_letter-crashes_example : replay_dead_letter manager "q" "y" 9_000_000 ≡ crashed
unfolding get_queue lookup find_dead new_job_queue new_job_manager
replay_dead_letter-crashes_example =
    replay_dead_letter-crashes manager "q" "y" 9_000_000
      (record queue { jobs = 0 ∷ []; job_index = ("x", 0) ∷ [] }) 1 (job "y" failed 3) refl refl
      refl (omega arith)

-- A peer has tried "y" again: the index has its newer version, and the log the old one.
abbrev retried : JobQueue
retried = record queue {
  heap = job "x" pending 2 ∷ job "y" failed 3 ∷ job "y" pending 90 ∷ [];
  job_index = ("x", 0) ∷ ("y", 2) ∷ [];
  pending_jobs = "x" ∷ "y" ∷ [];
}

evict-loses_example :
    (find_job (evict retried 100) "y" ≡ none)
    × ((evict retried 100).pending_jobs ≡ "x" ∷ "y" ∷ [])
    × (all_found (evict retried 100) (evict retried 100).pending_jobs ≡ false)
unfolding new_job_queue
evict-loses_example =
    evict-loses retried 100 1 (job "y" failed 3) ("x" ∷ []) (there here) refl refl (omega arith)
      refl
