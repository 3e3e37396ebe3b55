-- ===== src/Queue/Stale.antt =====
-- What a queue passes on after a merge (Snapshot and MergeSnapshot of queue/job.go).
use toll_mesh_store.Common.{
  ℕ, ◌≡◌, ◌<◌, refl, sym, ap, ◌∙◌, inl, inr, true, not, ◌&&◌, insert, some, List, [], ◌∷◌, ◌++◌,
  length, length-append, get_elem?-append_lt, is_some, arith, Bool-cases, Option-cases, ltb, sort,
}
use toll_mesh_store.Queue.{Job, JobQueue, find_job, sort_pending_jobs, job_before, all_found}
use toll_mesh_store.Queue.Finishing.{remove_from_processing}
use toll_mesh_store.Queue.Gossip.{
  jobs_at, snapshot, remove_from_pending, job_less, adopt, merge_job, merge_jobs, merge_snapshot,
}
use toll_mesh_store.Queue.Entries.{Pointed, list_by_status_same, merge_job-Pointed}
use toll_mesh_store.Queue.Found.{merge_job-found}

-- The addresses point into the heap.
abbrev pub Inside : List Job → List ℕ → Type 0
Inside heap [] = Unit
Inside heap (a ∷ rest) = (a < length heap) × Inside heap rest

Inside-append :
    (heap : List Job) (job : Job) (addrs : List ℕ)
    → Inside heap addrs
    → Inside (heap ++ job ∷ []) addrs
Inside-append heap job [] i = tt
Inside-append heap job (a ∷ rest) i =
    (omega (arith, i.0, length-append heap (job ∷ [])), Inside-append heap job rest i.1)

jobs_at-append :
    (heap : List Job) (job : Job) (addrs : List ℕ)
    → Inside heap addrs
    → jobs_at (heap ++ job ∷ []) addrs ≡ jobs_at heap addrs
unfolding jobs_at
jobs_at-append heap job [] i = refl
jobs_at-append heap job (a ∷ rest) i =
    let same = get_elem?-append_lt heap (job ∷ []) a i.0 in
    let ih = jobs_at-append heap job rest i.1 in ground (arith, same, ih)

-- A merge of a job that the index has leaves what the log points to.
pub adopt_known :
    (jq : JobQueue) (local peer : Job)
    → ((adopt jq (some local) peer).heap ≡ jq.heap ++ peer ∷ [])
      × ((adopt jq (some local) peer).jobs ≡ jq.jobs)
unfolding adopt remove_from_pending remove_from_processing
adopt_known jq local peer =
    let freed = remove_from_processing (remove_from_pending jq local.id) local.id in
    let (h, i, j) =
      list_by_status_same
        (record freed {
          heap = jq.heap ++ peer ∷ [];
          job_index = insert peer.id (length jq.heap) jq.job_index;
        })
        peer.status peer.id in
    (h, j)

-- The log of a queue and the jobs that it points to stay.
abbrev SameLog : JobQueue → JobQueue → Type 0
SameLog jq jq' = (snapshot jq' ≡ snapshot jq) × Inside jq'.heap jq'.jobs

merge_job-SameLog :
    (jq : JobQueue) (peer : Job)
    → Inside jq.heap jq.jobs
    → is_some (find_job jq peer.id) ≡ true
    → SameLog jq (merge_job jq peer)
unfolding merge_job snapshot
merge_job-SameLog jq peer i k = elim (Option-cases (find_job jq peer.id)) [
  | inl e ↦ absurd (cc)
  | inr ((a, local), e) ↦
      elim (Bool-cases (job_less local.updated_at local.node peer.updated_at peer.node)) [
        | inr older ↦ rw (merge_job, e, older) (refl, i)
        | inl newer ↦
            let (h, j) = adopt_known jq local peer in
            rw (merge_job, e, newer)
              (rw (h, j)
                (jobs_at-append jq.heap peer jq.jobs i, Inside-append jq.heap peer jq.jobs i))
      ]
]

-- The index has each of the peer's jobs.
abbrev pub Known : JobQueue → List Job → Type 0
Known jq [] = Unit
Known jq (peer ∷ rest) = (is_some (find_job jq peer.id) ≡ true) × Known jq rest

Known-merge_job :
    (jq : JobQueue) (peer : Job) (peers : List Job)
    → Pointed jq.heap jq.job_index
    → Known jq peers
    → Known (merge_job jq peer) peers
Known-merge_job jq peer [] p k = tt
Known-merge_job jq peer (job ∷ rest) p k =
    (merge_job-found jq peer job.id p k.0, Known-merge_job jq peer rest p k.1)

merge_jobs-SameLog :
    (jq : JobQueue) (peers : List Job)
    → Pointed jq.heap jq.job_index
    → Inside jq.heap jq.jobs
    → Known jq peers
    → SameLog jq (merge_jobs jq peers)
unfolding merge_jobs
merge_jobs-SameLog jq [] p i k = (refl, i)
merge_jobs-SameLog jq (peer ∷ rest) p i k =
    let next = merge_job jq peer in
    let (one, i') = merge_job-SameLog jq peer i k.0 in
    let (more, i'') =
      merge_jobs-SameLog next rest (merge_job-Pointed jq peer p) i'
        (Known-merge_job jq peer rest p k.1) in
    (more ∙ one, i'')

sort_pending_jobs-log :
    (jq jq' : JobQueue) → sort_pending_jobs jq ≡ some jq' → snapshot jq' ≡ snapshot jq
unfolding sort_pending_jobs snapshot
sort_pending_jobs-log jq jq' h =
    elim (Bool-cases (ltb 1 (length jq.pending_jobs) && not (all_found jq jq.pending_jobs))) [
      | inl bad ↦ absurd (ground (arith, h, bad))
      | inr fine ↦
          let e : some (record jq { pending_jobs = sort (job_before jq) jq.pending_jobs })
              ≡ some jq' =
            ground (arith, h, fine) in
          let same : record jq { pending_jobs = sort (job_before jq) jq.pending_jobs } ≡ jq' = cc in
          ap snapshot (sym same)
    ]

-- A queue that merges newer versions of jobs that it knows does not pass them on: what it sends to
-- its own peers is what it sent before, old versions and all.
pub snapshot-merge_snapshot :
    (jq jq' : JobQueue) (peers : List Job)
    → Pointed jq.heap jq.job_index
    → Inside jq.heap jq.jobs
    → Known jq peers
    → merge_snapshot jq peers ≡ some jq'
    → snapshot jq' ≡ snapshot jq
unfolding merge_snapshot
snapshot-merge_snapshot jq jq' peers p i k h =
    sort_pending_jobs-log (merge_jobs jq peers) jq' h ∙ (merge_jobs-SameLog jq peers p i k).0
