-- ===== src/Manager/Calls.antt =====
-- The replay of a dead letter, and what an eviction does to it (queue/job_manager.go).
use toll_mesh_store.Common.{
  ℕ, ◌≡◌, ◌<◌, refl, ap, ◌∙◌, inl, inr, true, false, ltb, String, lookup, none, some, List, [], ◌∷◌,
  ◌++◌, length, length-append, get_elem?, milli, is_some, arith, Bool-cases,
}
use toll_mesh_store.Queue.{
  pending, Job, JobQueue, find_job, write_job, sort_pending_jobs, all_found,
}
use toll_mesh_store.Manager.{
  JobManager, get_queue, crashed, find_dead, replayed, put_back, replay_dead_letter,
}
use toll_mesh_store.Manager.Cleanup.{is_outdated, evict_from, evict}
use toll_mesh_store.Manager.Eviction.{Listed, evict_from-erases}

all_found-missing :
    (q : JobQueue) (ids : List String) (job_id : String)
    → is_some (find_job q job_id) ≡ false
    → all_found q (ids ++ job_id ∷ []) ≡ false
unfolding all_found
all_found-missing q [] job_id h = ground (arith, h)
all_found-missing q (i ∷ ids) job_id h = ground (arith, all_found-missing q ids job_id h)

missing :
    (q : JobQueue) (job_id : String) (a : ℕ) (job : Job)
    → lookup job_id q.job_index ≡ none
    → is_some (find_job (write_job q a job) job_id) ≡ false
unfolding find_job
missing q job_id a job h = rw (find_job, h) refl

sort_pending_jobs-panics :
    (q : JobQueue)
    → 1 < length q.pending_jobs
    → all_found q q.pending_jobs ≡ false
    → sort_pending_jobs q ≡ none
unfolding sort_pending_jobs
sort_pending_jobs-panics q more h = ground (arith, h)

put_back-panics :
    (q : JobQueue) (job_id : String) (a : ℕ) (job : Job) (now : ℕ)
    → lookup job_id q.job_index ≡ none
    → 0 < length q.pending_jobs
    → sort_pending_jobs (put_back q job_id a job now) ≡ none
unfolding put_back find_job
put_back-panics q job_id a job now h more =
    let fresh : Job = record job {
      status = pending;
      retry_count = 0;
      error = "";
      updated_at = milli now;
    } in
    sort_pending_jobs-panics (put_back q job_id a job now)
      (omega (arith, length-append q.pending_jobs (job_id ∷ [])))
      (all_found-missing (put_back q job_id a job now) q.pending_jobs job_id
        (missing q job_id a fresh h))

-- A dead letter whose id the index has lost, as it does when a cleanup evicts the failed job, cannot
-- be replayed: where another job waits, the call panics.
pub replay_dead_letter-crashes :
    (jm : JobManager) (name job_id : String) (now : ℕ) (q : JobQueue) (a : ℕ) (job : Job)
    → get_queue jm name ≡ some q
    → find_dead q.heap job_id q.dead_letters ≡ some (a, job)
    → lookup job_id q.job_index ≡ none
    → 0 < length q.pending_jobs
    → replay_dead_letter jm name job_id now ≡ crashed
unfolding replay_dead_letter
replay_dead_letter-crashes jm name job_id now q a job g d h more =
    rw (replay_dead_letter, g, d)
      (ap (replayed jm name) (put_back-panics q job_id a job now h more))

evicted-index :
    (q : JobQueue) (now : ℕ)
    → 0 < q.max_age
    → ((evict q now).job_index ≡ (evict_from q.heap (milli q.max_age) now q.jobs q.job_index).1)
      × ((evict q now).pending_jobs ≡ q.pending_jobs)
unfolding evict
evicted-index q now ages = elim (Bool-cases (ltb 0 q.max_age)) [
  | inl yes_ages ↦ rw yes_ages (refl, refl)
  | inr no_ages ↦ absurd (ground arith)
]

no_index :
    (q : JobQueue) (job_id : String) → lookup job_id q.job_index ≡ none → find_job q job_id ≡ none
unfolding find_job
no_index q job_id h = rw (find_job, h) refl

-- A cleanup drops the id of an old job that has ended from the index, also where the index has
-- another job under that id: a peer's newer version, which waits to be tried again. No call finds
-- that version any more, and its id is still among the pending ones.
pub evict-loses :
    (q : JobQueue) (now a : ℕ) (job : Job) (ids : List String)
    → Listed a q.jobs
    → get_elem? q.heap a ≡ some job
    → is_outdated job (milli q.max_age) now ≡ true
    → 0 < q.max_age
    → q.pending_jobs ≡ ids ++ job.id ∷ []
    → (find_job (evict q now) job.id ≡ none)
      × ((evict q now).pending_jobs ≡ ids ++ job.id ∷ [])
      × (all_found (evict q now) (evict q now).pending_jobs ≡ false)
evict-loses q now a job ids l e old ages p =
    let (index, pending_same) = evicted-index q now ages in
    let lost : lookup job.id (evict q now).job_index ≡ none =
      ap (lookup job.id) index
      ∙ evict_from-erases a job q.heap (milli q.max_age) now q.job_index l e old in
    let unfound = no_index (evict q now) job.id lost in
    let waits = pending_same ∙ p in
    (
      unfound,
      waits,
      ap (all_found (evict q now)) waits
          ∙ all_found-missing (evict q now) ids job.id (ap is_some unfound),
    )
