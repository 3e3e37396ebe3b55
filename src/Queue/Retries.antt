-- ===== src/Queue/Retries.antt =====
-- What a failure does to a job (MarkFailed of queue/job.go).
use toll_mesh_store.Common.{
  ℕ, ◌+◌, ◌≡◌, ◌≢◌, true, leb, String, Option, none, some, List, [], ◌∷◌, ◌++◌, ◌-◌, ◌⊎◌, drop,
  length, str_eq, Perm, Sorted, false, get_elem?,
}
use mathlib.Core.List.Perm
use toll_mesh_store.Queue.{
  pending, failed, job_before, Job, JobQueue, Error, not_found, Outcome, done, write_job,
}
use toll_mesh_store.Queue.Claims.{status_at}
use toll_mesh_store.Queue.Finishing.{remove_from_processing}

abbrev retries_in : Option Job → Option ℕ
retries_in none = none
retries_in (some job) = some job.retry_count

abbrev pub retries_at : JobQueue → ℕ → Option ℕ
retries_at jq a = retries_in (get_elem? jq.heap a)

-- The identifier is not in the list.
abbrev Absent : String → List String → Type 0
Absent job_id [] = Unit
Absent job_id (j ∷ rest) = (str_eq j job_id ≡ false) × Absent job_id rest

-- The list without one occurrence of the identifier, where it has one.
abbrev Freed : String → List String → List String → Type 0
Freed job_id ids ids' = Perm (job_id ∷ ids') ids ⊎ ((ids' ≡ ids) × Absent job_id ids)

-- How a failure ends, from what the index had under the id.
abbrev pub Fails : JobQueue → String → Option (ℕ × Job) → Outcome (Option Error) → Type 0
Fails jq job_id none o = o ≡ done jq (some (not_found job_id))
Fails jq job_id (some (a, job)) o =
    (jq' : JobQueue) × (o ≡ done jq' none)
    × (retries_at jq' a ≡ some (job.retry_count + 1))
    × ((b : ℕ) → a ≢ b → status_at jq' b ≡ status_at jq b)
    × Freed job_id jq.processing_jobs jq'.processing_jobs
    × (((leb job.max_retries (job.retry_count + 1) ≡ true)
          × (status_at jq' a ≡ some failed)
          × (jq'.pending_jobs ≡ jq.pending_jobs)
          × (jq'.dead_letters
              ≡ drop (length jq.dead_letters + 1 - jq.dead_letter_max) (jq.dead_letters ++ a ∷ [])))
        ⊎ ((leb job.max_retries (job.retry_count + 1) ≡ false)
            × (status_at jq' a ≡ some pending)
            × Perm jq'.pending_jobs (jq.pending_jobs ++ job_id ∷ [])
            × Sorted (job_before jq') jq'.pending_jobs
            × (jq'.dead_letters ≡ jq.dead_letters)))

-- The queue with the job that is tried again, before the sort.
abbrev again : JobQueue → String → ℕ → Job → JobQueue
again jq job_id a new =
    let freed = write_job (remove_from_processing jq job_id) a new in
    record freed { pending_jobs = freed.pending_jobs ++ job_id ∷ [] }
