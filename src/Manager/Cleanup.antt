-- ===== src/Manager/Cleanup.antt =====
-- The cleanup that runs every 30 seconds (cleanupExpiredJobs of queue/job_manager.go).
--
-- It reads the clock once, in milliseconds. A nil pointer panics.
use toll_mesh_store.Common.{
  ℕ, ◌+◌, Bool, true, false, ◌&&◌, ltb, if◌then◌else◌, String, Map, erase, Option, none, some, List,
  [], ◌∷◌, ◌++◌, milli, get_elem?,
}
use toll_mesh_store.Queue.{
  JobStatus, pending, processing, completed, failed, cancelled, Job, JobQueue, find_job, write_job,
  sort_pending_jobs,
}
use toll_mesh_store.Queue.Claiming.{move_to_dead_letter}
use toll_mesh_store.Manager.{JobManager}

-- The loop over the pending jobs: the queue, and the ids that stay.
unfoldable pub expire_from :
    JobQueue → ℕ → List String → List String → Option (JobQueue × List String)
unfolding find_job move_to_dead_letter
expire_from q now [] kept = some (q, kept)
expire_from q now (job_id ∷ rest) kept = elim (find_job q job_id) [
  | none ↦ none
  | some (a, job) ↦
      let late = ltb 0 job.deadline_at && ltb job.deadline_at now in
      expire_from (if late then move_to_dead_letter q a job "deadline exceeded" else q) now rest
        (if late then kept else kept ++ job_id ∷ [])
]

-- 5 minutes.
abbrev pub processing_timeout : ℕ
processing_timeout = 300_000

abbrev pub is_stuck : Job → ℕ → Bool
is_stuck job now = ltb 0 job.process_started && ltb (job.process_started + processing_timeout) now

-- The loop over the processing jobs: the queue, the ids that wait again, and those that stay.
unfoldable pub requeue_from :
    JobQueue
    → ℕ
    → List String
    → List String
    → List String
    → Option (JobQueue × List String × List String)
unfolding find_job
requeue_from q now [] waiting kept = some (q, waiting, kept)
requeue_from q now (job_id ∷ rest) waiting kept = elim (find_job q job_id) [
  | none ↦ none
  | some (a, job) ↦
      let stuck = is_stuck job now in
      requeue_from
        (if stuck then write_job q a (record job { status = pending; processed_by = "" }) else q)
        now rest (if stuck then waiting ++ job_id ∷ [] else waiting)
        (if stuck then kept else kept ++ job_id ∷ [])
]

abbrev pub is_terminal : JobStatus → Bool
is_terminal pending = false
is_terminal processing = false
is_terminal completed = true
is_terminal failed = true
is_terminal cancelled = true

-- A job that has ended, and was last updated longer ago than the maximal age in milliseconds.
abbrev pub is_outdated : Job → ℕ → ℕ → Bool
is_outdated job max_age now = is_terminal job.status && ltb (job.updated_at + max_age) now

-- The loop over the log: the addresses that stay, and the index without the ids of the others.
unfoldable pub evict_from : List Job → ℕ → ℕ → List ℕ → Map ℕ → List ℕ × Map ℕ
evict_from heap max_age now [] index = ([], index)
evict_from heap max_age now (a ∷ rest) index = elim (get_elem? heap a) [
  | none ↦ evict_from heap max_age now rest index
  | some job ↦
      let old = is_outdated job max_age now in
      let (kept, left) =
        evict_from heap max_age now rest (if old then erase job.id index else index) in
      (if old then kept else a ∷ kept, left)
]

unfoldable pub evict : JobQueue → ℕ → JobQueue
unfolding evict_from
evict q now =
    let (kept, index) = evict_from q.heap (milli q.max_age) now q.jobs q.job_index in
    if ltb 0 q.max_age then record q { jobs = kept; job_index = index } else q

abbrev pub evicted : ℕ → Option JobQueue → Option JobQueue
evicted now none = none
evicted now (some q) = some (evict q now)

abbrev pub requeued : ℕ → Option (JobQueue × List String × List String) → Option JobQueue
requeued now none = none
requeued now (some (q, waiting, kept)) =
    evicted now (sort_pending_jobs (record q { pending_jobs = waiting; processing_jobs = kept }))

abbrev pub expired : ℕ → Option (JobQueue × List String) → Option JobQueue
expired now none = none
expired now (some (q, waiting)) = requeued now (requeue_from q now q.processing_jobs waiting [])

-- `none` is a panic.
unfoldable pub cleanup_queue : JobQueue → ℕ → Option JobQueue
unfolding expire_from requeue_from sort_pending_jobs evict
cleanup_queue q now = expired now (expire_from q now q.pending_jobs [])

unfoldable pub cleanup_queues : Map JobQueue → ℕ → Option (Map JobQueue)
unfolding cleanup_queue
cleanup_queues [] now = some []
cleanup_queues ((name, q) ∷ rest) now = elim (cleanup_queue q now) [
  | none ↦ none
  | some q' ↦ elim (cleanup_queues rest now) [
    | none ↦ none
    | some rest' ↦ some ((name, q') ∷ rest')
  ]
]

unfoldable pub cleanup_expired_jobs : JobManager → ℕ → Option JobManager
unfolding cleanup_queues
cleanup_expired_jobs jm now = elim (cleanup_queues jm.queues now) [
  | none ↦ none
  | some queues ↦ some (record jm { queues = queues })
]
