-- ===== src/Queue/Claiming.antt =====
-- Claiming a job (GetNextJob and moveToDeadLetter of queue/job.go).
use toll_mesh_store.Common.{
  ℕ, zero, suc, ◌-◌, Bool, true, false, ◌&&◌, ◌==◌, ltb, if◌then◌else◌, String, Map, lookup, insert,
  none, some, List, [], ◌∷◌, ◌++◌, length, take, drop, get_elem?, milli,
}
use toll_mesh_store.Queue.{
  JobStatus, pending, processing, completed, failed, cancelled, Job, Worker, JobQueue, Error,
  no_pending, no_claimable, Outcome, panicked, done, find_job, write_job,
}

abbrev pub is_pending : JobStatus → Bool
is_pending pending = true
is_pending processing = false
is_pending completed = false
is_pending failed = false
is_pending cancelled = false

unfoldable pub move_to_dead_letter : JobQueue → ℕ → Job → String → JobQueue
move_to_dead_letter jq a job reason =
    let dead = jq.dead_letters ++ a ∷ [] in
    record (write_job jq a (record job { error = reason })) {
      dead_letters =
          if ltb jq.dead_letter_max (length dead)
          then drop (length dead - jq.dead_letter_max) dead
          else dead;
    }

-- `append(pending[:i], pending[i+1:]...)`: the array that the slice `pending` lies in. What is
-- behind the slice stays.
unfoldable pub shift : ℕ → ℕ → List String → List String
shift i size array = take i array ++ drop (suc i) (take size array) ++ drop (size - 1) array

unfoldable pub remove_at : ℕ → List String → List String
remove_at i ids = take i ids ++ drop (suc i) ids

unfoldable pub is_late : Job → ℕ → Bool
is_late job now = ltb 0 job.deadline_at && ltb job.deadline_at (milli now)

-- The worker's entry, made where it is missing, with the job that it now has.
unfoldable pub register : JobQueue → String → String → ℕ → Map Worker
register jq worker_id job_id now = elim (lookup worker_id jq.subscribers) [
  | none ↦
      insert worker_id
        (record {
          id = worker_id;
          queue = jq.name;
          last_heartbeat = milli now;
          processing_job = job_id;
          completed_jobs = 0;
        })
        jq.subscribers
  | some w ↦ insert worker_id (record w { processing_job = job_id }) jq.subscribers
]

unfoldable pub claim : JobQueue → String → ℕ → ℕ → String → ℕ → Job → JobQueue
unfolding remove_at register
claim jq worker_id now i job_id a job =
    let started : Job = record job {
      status = processing;
      processed_by = worker_id;
      process_started = milli now;
      updated_at = milli now;
      node = jq.node_id;
    } in
    record (write_job jq a started) {
      pending_jobs = remove_at i jq.pending_jobs;
      processing_jobs = jq.processing_jobs ++ job_id ∷ [];
      subscribers = register jq worker_id job_id now;
    }

pub data Claim : Type 0 where
  claimed : ℕ → Claim
  refused : Error → Claim

-- The loop. It ranges over the slice as it was, whose array the removals shift: `left` positions
-- remain from `i` on, while `jq.pending_jobs` gets shorter. A removal behind the end of that slice
-- panics, after the writes before it.
unfoldable pub claim_from : JobQueue → String → ℕ → List String → ℕ → ℕ → Outcome Claim
unfolding move_to_dead_letter shift remove_at is_late claim find_job
claim_from jq worker_id now array i zero = done jq (refused no_claimable)
claim_from jq worker_id now array i (suc left) = elim (get_elem? array i) [
  | none ↦ panicked
  | some job_id ↦ elim (find_job jq job_id) [
    | none ↦ panicked
    | some (a, job) ↦ elim (is_late job now) [
      | true ↦
          let dead = move_to_dead_letter jq a job "deadline exceeded" in
          elim (ltb i (length jq.pending_jobs)) [
            | true ↦
                claim_from (record dead { pending_jobs = remove_at i jq.pending_jobs }) worker_id
                  now (shift i (length jq.pending_jobs) array) (suc i) left
            | false ↦ panicked
          ]
      | false ↦ elim (is_pending job.status) [
        | true ↦ elim (ltb i (length jq.pending_jobs)) [
          | true ↦ done (claim jq worker_id now i job_id a job) (claimed a)
          | false ↦ panicked
        ]
        | false ↦ claim_from jq worker_id now array (suc i) left
      ]
    ]
  ]
]

unfoldable pub get_next_job : JobQueue → String → ℕ → Outcome Claim
unfolding claim_from
get_next_job jq worker_id now =
    if length jq.pending_jobs == 0
    then done jq (refused no_pending)
    else claim_from jq worker_id now jq.pending_jobs 0 (length jq.pending_jobs)
