-- ===== src/Queue/Order.antt =====
-- The order of the pending jobs (sortPendingJobs of queue/job.go).
use toll_mesh_store.Common.{
  ◌≡◌, refl, true, some, Sorted, WeakOrder, sort-Sorted, sort-Perm, sort, arith, Perm,
}
use toll_mesh_store.Queue.{JobQueue, find_job, job_before, all_found, sort_pending_jobs}

job_before-WeakOrder : (jq : JobQueue) → WeakOrder (job_before jq)
unfolding job_before
job_before-WeakOrder jq = record {
  irrefl = λ a. ground arith;
  asym = λ a b h. ground (arith, h);
  false_trans = λ a b c h k. ground (arith, h, k);
}

-- Where the index has every pending job, the sort does not panic and leaves the pending jobs in the
-- order of falling priority, and of rising timestamp where the priority is one; it changes nothing
-- else, and no pending job is lost or added.
pub sort_pending_jobs-Sorted :
    (jq : JobQueue)
    → all_found jq jq.pending_jobs ≡ true
    → (jq' : JobQueue) × (sort_pending_jobs jq ≡ some jq')
      × Sorted (job_before jq') jq'.pending_jobs
      × (jq'.heap ≡ jq.heap)
      × (jq'.job_index ≡ jq.job_index)
      × (jq' ≡ record jq { pending_jobs = jq'.pending_jobs })
      × Perm jq'.pending_jobs jq.pending_jobs
unfolding sort_pending_jobs job_before find_job
sort_pending_jobs-Sorted jq found = (
  record jq { pending_jobs = sort (job_before jq) jq.pending_jobs },
  ground (arith, found),
  sort-Sorted (job_before jq) (job_before-WeakOrder jq) jq.pending_jobs,
  refl,
  refl,
  refl,
  sort-Perm (job_before jq) jq.pending_jobs,
)
