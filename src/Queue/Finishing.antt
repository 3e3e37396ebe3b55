-- ===== src/Queue/Finishing.antt =====
-- Completing and failing a job (MarkComplete and MarkFailed of queue/job.go).
use toll_mesh_store.Common.{
  ℕ, ◌+◌, ◌*◌, ◌≡◌, ◌≢◌, refl, ap, ◌⊎◌, Bool, true, false, not, ◌==◌, ltb, leb, if◌then◌else◌,
  String, str_eq, ◌⧺◌, Bytes, Option, none, some, List, [], ◌∷◌, ◌++◌, milli, inl, inr, Bool-cases,
}
use toll_mesh_store.Queue.{
  JobStatus, pending, processing, completed, failed, cancelled, Job, RetryPolicy, JobQueue, Error,
  not_found, not_processing, Outcome, done, find_job, write_job, sort_pending_jobs, sorted,
}
use toll_mesh_store.Queue.Claiming.{move_to_dead_letter}
use toll_mesh_store.Queue.Claims.{status_at, status_in, find_job-heap, written}

-- The first one goes: the loop of `removeFromProcessing`.
unfoldable pub remove_first : String → List String → List String
remove_first job_id [] = []
remove_first job_id (j ∷ rest) =
    let kept = remove_first job_id rest in if str_eq j job_id then rest else j ∷ kept

unfoldable pub remove_from_processing : JobQueue → String → JobQueue
unfolding remove_first
remove_from_processing jq job_id = record jq {
  processing_jobs = remove_first job_id jq.processing_jobs;
}

abbrev pub is_processing : JobStatus → Bool
is_processing pending = false
is_processing processing = true
is_processing completed = false
is_processing failed = false
is_processing cancelled = false

unfoldable pub mark_complete : JobQueue → String → Bytes → ℕ → Outcome (Option Error)
unfolding remove_from_processing find_job
mark_complete jq job_id result now = elim (find_job jq job_id) [
  | none ↦ done jq (some (not_found job_id))
  | some (a, job) ↦
      if not (is_processing job.status)
      then done jq (some (not_processing job_id))
      else done
          (remove_from_processing
            (write_job jq a (record job {
              status = completed;
              result = result;
              process_ended = milli now;
              updated_at = milli now;
              node = jq.node_id;
            }))
            job_id)
          none
]

unfoldable pub calculate_backoff : RetryPolicy → ℕ → ℕ
calculate_backoff p retry_count =
    let backoff = p.initial_backoff * (p.backoff_factor * retry_count) in
    if retry_count == 0
    then p.initial_backoff
    else if ltb p.max_backoff backoff
    then p.max_backoff
    else backoff

unfoldable pub mark_failed : JobQueue → String → String → ℕ → Outcome (Option Error)
unfolding remove_from_processing find_job calculate_backoff move_to_dead_letter sort_pending_jobs
mark_failed jq job_id err_msg now = elim (find_job jq job_id) [
  | none ↦ done jq (some (not_found job_id))
  | some (a, job) ↦
      let tried : Job = record job {
        error = err_msg;
        retry_count = job.retry_count + 1;
        process_ended = milli now;
        updated_at = milli now;
        node = jq.node_id;
      } in
      let freed = remove_from_processing jq job_id in
      let retry_at = milli (now + calculate_backoff jq.retry_policy tried.retry_count) in
      let again = write_job freed a (record tried { status = pending; updated_at = retry_at }) in
      if leb tried.max_retries tried.retry_count
      then done
          (move_to_dead_letter freed a (record tried { status = failed })
            ("max retries exceeded: " ⧺ err_msg))
          none
      else sorted
          (sort_pending_jobs (record again { pending_jobs = again.pending_jobs ++ job_id ∷ [] }))
          none
]

-- How a completion ends, from what the index had under the id.
abbrev pub Completes : JobQueue → String → Option (ℕ × Job) → Outcome (Option Error) → Type 0
Completes jq job_id none o = o ≡ done jq (some (not_found job_id))
Completes jq job_id (some (a, job)) o =
    ((is_processing job.status ≡ false) × (o ≡ done jq (some (not_processing job_id))))
    ⊎ ((is_processing job.status ≡ true)
        × ((jq' : JobQueue) × (o ≡ done jq' none)
            × (status_at jq' a ≡ some completed)
            × ((b : ℕ) → a ≢ b → status_at jq' b ≡ status_at jq b)
            × (jq'.pending_jobs ≡ jq.pending_jobs)))

-- A job that is being processed is completed, and no other job changes its status; a job in any
-- other state, and one that is not there, is left with the whole queue as it was, and the error says
-- which of the two it is.
pub mark_complete_lem :
    (jq : JobQueue) (job_id : String) (result : Bytes) (now : ℕ) (o : Option (ℕ × Job))
    → find_job jq job_id ≡ o
    → Completes jq job_id o (mark_complete jq job_id result now)
unfolding mark_complete remove_from_processing
mark_complete_lem jq job_id result now none h = rw (mark_complete, h) refl
mark_complete_lem jq job_id result now (some (a, job)) h =
    let ended : Job = record job {
      status = completed;
      result = result;
      process_ended = milli now;
      updated_at = milli now;
      node = jq.node_id;
    } in
    let after = remove_from_processing (write_job jq a ended) job_id in
    let (self, others) = written jq.heap a job ended (find_job-heap jq job_id a job h) in
    elim (Bool-cases (is_processing job.status)) [
      | inl busy ↦ inr (
        busy,
        (
          after,
          rw (mark_complete, h, busy) refl,
          ap status_in self,
          λ b n. ap status_in (others b n),
          refl,
        ),
      )
      | inr idle ↦ inl (idle, rw (mark_complete, h, idle) refl)
    ]
