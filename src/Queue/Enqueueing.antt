-- ===== src/Queue/Enqueueing.antt =====
-- A job that is put into a queue (Enqueue of queue/job.go).
use toll_mesh_store.Common.{
  ℕ, ◌+◌, ◌%◌, ◌≡◌, refl, ap, ◌∙◌, inl, inr, true, false, String, str_eq, ◌⧺◌, decimal, eq_iff,
  insert, some, [], ◌∷◌, ◌++◌, length, is_some, arith, Bytes, milli, Sorted, Bool-cases,
  Option-cases, Perm,
}
use toll_mesh_store.Core.Crdt.{copy_into}
use toll_mesh_store.Queue.{
  pending, Job, JobQueue, done, find_job, job_before, all_found, sorted, enqueue,
}
use toll_mesh_store.Queue.Order.{sort_pending_jobs-Sorted}
use toll_mesh_store.Queue.Gossip.{job_less, merge_job}
use toll_mesh_store.Queue.Entries.{entry, Pointed, entry-added}
use toll_mesh_store.Queue.Found.{
  found-entry, Found-mono, Found-append, Found-all_found, all_found-Found,
}
use toll_mesh_store.Queue.Stale.{adopt_known}

-- What a queue gives a new job for an id: its clock and the last digits of the time, and no node.
abbrev pub id_of : JobQueue → ℕ → String
id_of jq now = "job-" ⧺ decimal (jq.lamport_clock + 1) ⧺ "-" ⧺ decimal (now % 1000)

-- The job of a call, and the queue before its sort.
abbrev job_of : JobQueue → Bytes → ℕ → ℕ → ℕ → ℕ → Job
job_of jq payload priority max_retries deadline now = record {
  id = id_of jq now;
  queue = jq.name;
  payload = payload;
  status = pending;
  priority = priority;
  timestamp = jq.lamport_clock + 1;
  vector_clock = copy_into [] jq.vector_clock;
  retry_count = 0;
  max_retries = max_retries;
  processed_by = "";
  result = [];
  error = "";
  created_at = milli now;
  updated_at = milli now;
  deadline_at = milli (now + deadline);
  process_started = 0;
  process_ended = 0;
  node = jq.node_id;
}

abbrev with_job : JobQueue → Job → JobQueue
with_job jq job = record jq {
  lamport_clock = jq.lamport_clock + 1;
  heap = jq.heap ++ job ∷ [];
  jobs = jq.jobs ++ length jq.heap ∷ [];
  job_index = insert job.id (length jq.heap) jq.job_index;
  pending_jobs = jq.pending_jobs ++ job.id ∷ [];
}

with_job-found :
    (jq : JobQueue) (job : Job)
    → Pointed jq.heap jq.job_index
    → all_found jq jq.pending_jobs ≡ true
    → all_found (with_job jq job) (with_job jq job).pending_jobs ≡ true
with_job-found jq job p all =
    let after = with_job jq job in
    let read = λ (i : String). entry-added jq after job i p refl refl in
    Found-all_found after after.pending_jobs (
      Found-append after jq.pending_jobs job.id
        (Found-mono jq after jq.pending_jobs
          (λ i h. ground (arith, found-entry jq i, found-entry after i, read i, h))
          (all_found-Found jq jq.pending_jobs all))
        (ground (arith, found-entry after job.id, read job.id, eq_iff job.id job.id)))

entry-sorted :
    (jq jq' : JobQueue) (job_id : String)
    → jq'.heap ≡ jq.heap
    → jq'.job_index ≡ jq.job_index
    → entry jq' job_id ≡ entry jq job_id
unfolding entry find_job
entry-sorted jq jq' job_id h i = rw (h, i) refl

-- Where the index points into the heap and has every pending job, a call does not panic. The new
-- job is pending, with the payload, priority and retries that were given, and is found under its
-- id; under every other id the queue has what it had. The pending jobs are those that there were and
-- the new one, in their order; the log gets the new job at its end, and the jobs that are being
-- processed stay.
pub enqueue_lem :
    (jq : JobQueue) (payload : Bytes) (priority max_retries deadline now : ℕ)
    → Pointed jq.heap jq.job_index
    → all_found jq jq.pending_jobs ≡ true
    → (jq' : JobQueue) × (job : Job) × (enqueue jq payload priority max_retries deadline now
        ≡ done jq' (length jq.heap))
      × (entry jq' (id_of jq now) ≡ some job)
      × (job.status ≡ pending)
      × (job.payload ≡ payload)
      × (job.priority ≡ priority)
      × (job.max_retries ≡ max_retries)
      × ((i : String) → str_eq (id_of jq now) i ≡ false → entry jq' i ≡ entry jq i)
      × Sorted (job_before jq') jq'.pending_jobs
      × Perm jq'.pending_jobs (jq.pending_jobs ++ id_of jq now ∷ [])
      × (jq'.jobs ≡ jq.jobs ++ length jq.heap ∷ [])
      × (jq'.processing_jobs ≡ jq.processing_jobs)
unfolding enqueue
enqueue_lem jq payload priority max_retries deadline now p all =
    let job = job_of jq payload priority max_retries deadline now in
    let mid = with_job jq job in
    let (jq', e, ordered, heap, index, same, kept) =
      sort_pending_jobs-Sorted mid (with_job-found jq job p all) in
    let read =
      λ (i : String). entry-sorted mid jq' i heap index ∙ entry-added jq mid job i p refl refl in
    (
      jq',
      job,
      ap (λ q. sorted q (length jq.heap)) e,
      read job.id ∙ rw ((eq_iff job.id job.id).1 refl) refl,
      refl,
      refl,
      refl,
      refl,
      λ i n. read i ∙ rw n refl,
      ordered,
      kept,
      ap (λ q. q.jobs) same,
      ap (λ q. q.processing_jobs) same,
    )

known-jobs :
    (jq : JobQueue) (peer : Job)
    → is_some (entry jq peer.id) ≡ true
    → (merge_job jq peer).jobs ≡ jq.jobs
unfolding merge_job
known-jobs jq peer h = elim (Option-cases (find_job jq peer.id)) [
  | inl e ↦ absurd (ground (arith, found-entry jq peer.id, h, e))
  | inr ((a, local), e) ↦
      elim (Bool-cases (job_less local.updated_at local.node peer.updated_at peer.node)) [
        | inl newer ↦ rw (merge_job, e, newer) (adopt_known jq local peer).1
        | inr older ↦ rw (merge_job, e, older) refl
      ]
]

-- Two nodes whose queues have one clock, and that put jobs in at times with the same last digits,
-- give both jobs one id. A merge takes them for one job: the log of the merged queue has no job
-- more than before.
pub enqueue_collides :
    (jq other : JobQueue) (payload : Bytes) (priority max_retries deadline now now' : ℕ)
    → Pointed jq.heap jq.job_index
    → all_found jq jq.pending_jobs ≡ true
    → other.lamport_clock ≡ jq.lamport_clock
    → now' % 1000 ≡ now % 1000
    → (jq' : JobQueue) × (enqueue jq payload priority max_retries deadline now
        ≡ done jq' (length jq.heap))
      × ((peer : Job) → peer.id ≡ id_of other now' → (merge_job jq' peer).jobs ≡ jq'.jobs)
enqueue_collides jq other payload priority max_retries deadline now now' p all clock digits =
    let r = enqueue_lem jq payload priority max_retries deadline now p all in
    let same : id_of other now' ≡ id_of jq now = rw (clock, digits) refl in
    (r.0, r.2, λ peer named. known-jobs r.0 peer (rw (named, same) (ap is_some r.3)))
