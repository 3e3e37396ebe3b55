-- ===== src/Queue/Found.antt =====
-- Pending jobs are in the index, also after a merge (MergeSnapshot of queue/job.go).
use toll_mesh_store.Common.{
  ◌≡◌, refl, inl, inr, true, String, eq_iff, Option, none, some, List, [], ◌∷◌, ◌++◌, is_some,
  arith, Bool-cases, Option-cases,
}
use toll_mesh_store.Queue.{
  JobStatus, pending, processing, completed, failed, cancelled, Job, JobQueue, find_job, all_found,
}
use toll_mesh_store.Queue.Finishing.{remove_first, remove_from_processing}
use toll_mesh_store.Queue.Entries.{entry, Pointed, merge_job-Pointed, merge_job-entry}
use toll_mesh_store.Queue.Gossip.{
  remove_from_pending, job_less, list_by_status, adopt, merge_job, merge_jobs,
}

pub found-entry :
    (jq : JobQueue) (job_id : String) → is_some (find_job jq job_id) ≡ is_some (entry jq job_id)
unfolding entry
found-entry jq job_id = ground arith

pub merge_job-found :
    (jq : JobQueue) (peer : Job) (i : String)
    → Pointed jq.heap jq.job_index
    → is_some (find_job jq i) ≡ true
    → is_some (find_job (merge_job jq peer) i) ≡ true
merge_job-found jq peer i p h =
    ground
      (arith, found-entry jq i, found-entry (merge_job jq peer) i, merge_job-entry jq peer i p, h)

merge_job-found_self :
    (jq : JobQueue) (peer : Job)
    → Pointed jq.heap jq.job_index
    → is_some (find_job (merge_job jq peer) peer.id) ≡ true
merge_job-found_self jq peer p = ground (
  arith,
  found-entry (merge_job jq peer) peer.id,
  merge_job-entry jq peer peer.id p,
  eq_iff peer.id peer.id,
)

-- Every one of the ids is in the index.
abbrev pub Found : JobQueue → List String → Type 0
Found jq [] = Unit
Found jq (i ∷ ids) = (is_some (find_job jq i) ≡ true) × Found jq ids

pub Found-all_found : (jq : JobQueue) (ids : List String) → Found jq ids → all_found jq ids ≡ true
unfolding all_found
Found-all_found jq [] f = refl
Found-all_found jq (i ∷ ids) f = ground (arith, f.0, Found-all_found jq ids f.1)

pub all_found-Found : (jq : JobQueue) (ids : List String) → all_found jq ids ≡ true → Found jq ids
unfolding all_found
all_found-Found jq [] h = tt
all_found-Found jq (i ∷ ids) h = ground (arith, h, all_found-Found jq ids)

pub Found-mono :
    (jq jq' : JobQueue) (ids : List String)
    → ((i : String) → is_some (find_job jq i) ≡ true → is_some (find_job jq' i) ≡ true)
    → Found jq ids
    → Found jq' ids
Found-mono jq jq' [] same f = tt
Found-mono jq jq' (i ∷ ids) same f = (same i f.0, Found-mono jq jq' ids same f.1)

Found-remove_first :
    (jq : JobQueue) (job_id : String) (ids : List String)
    → Found jq ids
    → Found jq (remove_first job_id ids)
unfolding remove_first
Found-remove_first jq job_id [] f = tt
Found-remove_first jq job_id (i ∷ ids) f =
    ground (arith, f.0, f.1, Found-remove_first jq job_id ids f.1)

pub Found-append :
    (jq : JobQueue) (ids : List String) (i : String)
    → Found jq ids
    → is_some (find_job jq i) ≡ true
    → Found jq (ids ++ i ∷ [])
Found-append jq [] i f h = (h, tt)
Found-append jq (j ∷ ids) i f h = (f.0, Found-append jq ids i f.1 h)

list_by_status-Found :
    (jq after : JobQueue) (s : JobStatus) (i : String)
    → Found after jq.pending_jobs
    → is_some (find_job after i) ≡ true
    → Found after (list_by_status jq s i).pending_jobs
unfolding list_by_status
list_by_status-Found jq after pending i f h = Found-append after jq.pending_jobs i f h
list_by_status-Found jq after processing i f h = f
list_by_status-Found jq after completed i f h = f
list_by_status-Found jq after failed i f h = f
list_by_status-Found jq after cancelled i f h = f

adopt-Found :
    (jq after : JobQueue) (o : Option Job) (peer : Job)
    → Found after jq.pending_jobs
    → is_some (find_job after peer.id) ≡ true
    → Found after (adopt jq o peer).pending_jobs
unfolding adopt remove_from_pending remove_from_processing
adopt-Found jq after none peer f h = list_by_status-Found _ after peer.status peer.id f h
adopt-Found jq after (some local) peer f h =
    list_by_status-Found _ after peer.status peer.id
      (Found-remove_first after local.id jq.pending_jobs f) h

merge_job-pending :
    (jq after : JobQueue) (peer : Job)
    → Found after jq.pending_jobs
    → is_some (find_job after peer.id) ≡ true
    → Found after (merge_job jq peer).pending_jobs
unfolding merge_job
merge_job-pending jq after peer f h = elim (Option-cases (find_job jq peer.id)) [
  | inl e ↦ rw (merge_job, e) (adopt-Found jq after none peer f h)
  | inr ((a, local), e) ↦
      elim (Bool-cases (job_less local.updated_at local.node peer.updated_at peer.node)) [
        | inl newer ↦ rw (merge_job, e, newer) (adopt-Found jq after (some local) peer f h)
        | inr older ↦ rw (merge_job, e, older) f
      ]
]

pub merge_jobs-Found :
    (jq : JobQueue) (peers : List Job)
    → Pointed jq.heap jq.job_index
    → Found jq jq.pending_jobs
    → Found (merge_jobs jq peers) (merge_jobs jq peers).pending_jobs
unfolding merge_jobs
merge_jobs-Found jq [] p f = f
merge_jobs-Found jq (peer ∷ rest) p f =
    let next = merge_job jq peer in
    merge_jobs-Found next rest (merge_job-Pointed jq peer p) (
      merge_job-pending jq next peer
        (Found-mono jq next jq.pending_jobs (λ i. merge_job-found jq peer i p) f)
        (merge_job-found_self jq peer p))
