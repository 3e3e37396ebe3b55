-- ===== src/Queue/Tests.antt =====
-- The theorems on the job queue, each on a queue of two jobs.
use toll_mesh_store.Common.{ℕ, ◌≡◌, refl, arith, String, [], ◌∷◌, lookup}
use toll_mesh_store.Queue.{
  JobStatus, pending, processing, Job, JobQueue, panicked, new_job_queue, find_job,
}
use toll_mesh_store.Queue.Claiming.{get_next_job, is_late}
use toll_mesh_store.Queue.Claims.{Claims, get_next_job-Claims}
use toll_mesh_store.Queue.Panic.{get_next_job-panics}

abbrev job : String → JobStatus → ℕ → ℕ → Job
job id status priority deadline_at = record {
  id = id;
  queue = "q";
  payload = [];
  status = status;
  priority = priority;
  timestamp = 1;
  vector_clock = [];
  retry_count = 0;
  max_retries = 3;
  processed_by = "";
  result = [];
  error = "";
  created_at = 1;
  updated_at = 1;
  deadline_at = deadline_at;
  process_started = 0;
  process_ended = 0;
  node = "a";
}

-- "x" is past its deadline at 9 milliseconds, and "y" has none.
abbrev queue : JobQueue
queue = record (new_job_queue "q" 0 "a") {
  heap = job "x" pending 2 5 ∷ job "y" pending 7 0 ∷ [];
  jobs = 0 ∷ 1 ∷ [];
  job_index = ("x", 0) ∷ ("y", 1) ∷ [];
  pending_jobs = "x" ∷ "y" ∷ [];
}

abbrev busy : JobQueue
busy = record queue {
  heap = job "x" processing 2 5 ∷ job "y" pending 7 0 ∷ [];
  pending_jobs = "y" ∷ [];
  processing_jobs = "x" ∷ [];
}

get_next_job-Claims_example : Claims queue "w" (get_next_job queue "w" 3_000_000)
get_next_job-Claims_example = get_next_job-Claims queue "w" 3_000_000

get_next_job-panics_example : get_next_job queue "w" 9_000_000 ≡ panicked
unfolding find_job lookup is_late
get_next_job-panics_example =
    get_next_job-panics queue "w" "x" "y" 9_000_000 0 1 (job "x" pending 2 5) (job "y" pending 7 0)
      refl refl refl (λ h. omega (arith, h)) refl refl refl
