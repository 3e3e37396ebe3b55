-- ===== src/Queue/Gossip.antt =====
-- The reads of a queue, and the merge of a peer's jobs (queue/job.go).
use toll_mesh_store.Common.{
  ℕ, Bool, not, ◌==◌, ltb, str_ltb, if◌then◌else◌, String, insert, Option, none, some, List, [],
  ◌∷◌, ◌++◌, length, get_elem?,
}
use toll_mesh_store.Queue.{
  JobStatus, pending, processing, completed, failed, cancelled, Job, JobQueue, Error, not_found,
  find_job, sort_pending_jobs,
}
use toll_mesh_store.Queue.Finishing.{remove_first, remove_from_processing}

-- The jobs behind a list of addresses. No call makes an address outside the heap.
unfoldable pub jobs_at : List Job → List ℕ → List Job
jobs_at heap [] = []
jobs_at heap (a ∷ rest) = elim (get_elem? heap a) [
  | none ↦ jobs_at heap rest
  | some job ↦ job ∷ jobs_at heap rest
]

unfoldable pub snapshot : JobQueue → List Job
unfolding jobs_at
snapshot jq = jobs_at jq.heap jq.jobs

unfoldable pub get_dead_letter_queue : JobQueue → List ℕ
get_dead_letter_queue jq = jq.dead_letters

-- A job, or the error.
pub data Status : Type 0 where
  at : ℕ → Job → Status
  missing : Error → Status

unfoldable pub get_status : JobQueue → String → Status
unfolding find_job
get_status jq job_id = elim (find_job jq job_id) [
  | none ↦ missing (not_found job_id)
  | some (a, job) ↦ at a job
]

pub record Counts : Type 0 where
  pub queue : String
  pub total_jobs : ℕ
  pub pending : ℕ
  pub processing : ℕ
  pub active_workers : ℕ
  pub dead_letter_size : ℕ
  pub lamport_clock : ℕ

unfoldable pub get_stats : JobQueue → Counts
get_stats jq = record {
  queue = jq.name;
  total_jobs = length jq.jobs;
  pending = length jq.pending_jobs;
  processing = length jq.processing_jobs;
  active_workers = length jq.subscribers;
  dead_letter_size = length jq.dead_letters;
  lamport_clock = jq.lamport_clock;
}

unfoldable pub remove_from_pending : JobQueue → String → JobQueue
unfolding remove_first
remove_from_pending jq job_id = record jq { pending_jobs = remove_first job_id jq.pending_jobs }

unfoldable pub job_less : ℕ → String → ℕ → String → Bool
job_less ts_a node_a ts_b node_b =
    if not (ts_a == ts_b) then ltb ts_a ts_b else str_ltb node_a node_b

-- The list that a job of this status waits in.
unfoldable pub list_by_status : JobQueue → JobStatus → String → JobQueue
list_by_status jq pending job_id = record jq { pending_jobs = jq.pending_jobs ++ job_id ∷ [] }
list_by_status jq processing job_id = record jq {
  processing_jobs = jq.processing_jobs ++ job_id ∷ [];
}
list_by_status jq completed job_id = jq
list_by_status jq failed job_id = jq
list_by_status jq cancelled job_id = jq

-- The copy of a peer's job, which the index points to from here on. `jobs` goes on pointing to the
-- job that was there before, if there was one.
unfoldable pub adopt : JobQueue → Option Job → Job → JobQueue
unfolding list_by_status remove_from_pending remove_from_processing
adopt jq none peer =
    list_by_status
      (record jq {
        heap = jq.heap ++ peer ∷ [];
        jobs = jq.jobs ++ length jq.heap ∷ [];
        job_index = insert peer.id (length jq.heap) jq.job_index;
      })
      peer.status peer.id
adopt jq (some local) peer =
    let freed = remove_from_processing (remove_from_pending jq local.id) local.id in
    list_by_status
      (record freed {
        heap = jq.heap ++ peer ∷ [];
        job_index = insert peer.id (length jq.heap) jq.job_index;
      })
      peer.status peer.id

unfoldable pub merge_job : JobQueue → Job → JobQueue
unfolding adopt job_less find_job
merge_job jq peer = elim (find_job jq peer.id) [
  | none ↦ adopt jq none peer
  | some (a, local) ↦
      if not (job_less local.updated_at local.node peer.updated_at peer.node)
      then jq
      else adopt jq (some local) peer
]

unfoldable pub merge_jobs : JobQueue → List Job → JobQueue
unfolding merge_job
merge_jobs jq [] = jq
merge_jobs jq (peer ∷ rest) = merge_jobs (merge_job jq peer) rest

-- `none` is the panic of the sort.
unfoldable pub merge_snapshot : JobQueue → List Job → Option JobQueue
unfolding merge_jobs sort_pending_jobs
merge_snapshot jq peers = sort_pending_jobs (merge_jobs jq peers)
