-- ===== src/Queue/Merging.antt =====
-- Merging a peer's jobs (MergeSnapshot of queue/job.go).
use toll_mesh_store.Common.{
  ◌≡◌, ◌⊎◌, refl, ap, ◌∙◌, inl, inr, true, false, String, str_eq, eq_iff, Option, none, some, List,
  [], ◌∷◌, arith, Version, version_ltb, version_ltb_irrefl, version_ltb_asym,
  version_ltb-false_trans, Bool-cases, Sorted,
}
use toll_mesh_store.Queue.{Job, JobQueue, find_job, all_found, job_before}
use toll_mesh_store.Queue.Order.{sort_pending_jobs-Sorted}
use toll_mesh_store.Queue.Entries.{
  entry, winner, version_of, job_less-eq, Pointed, merge_job-Pointed, merge_job-entry,
}
use toll_mesh_store.Queue.Found.{Found-all_found, all_found-Found, merge_jobs-Found}
use toll_mesh_store.Queue.Gossip.{job_less, merge_job, merge_jobs, merge_snapshot}

-- There is a job, and it is no older than the version.
abbrev pub AtLeast : Version → Option Job → Type 0
AtLeast v none = ⊥
AtLeast v (some job) = version_ltb (version_of job) v ≡ false

winner-peer : (o : Option Job) (peer : Job) → AtLeast (version_of peer) (some (winner o peer))
unfolding winner
winner-peer none peer = version_ltb_irrefl (version_of peer)
winner-peer (some local) peer = ground (
  arith,
  job_less-eq local.updated_at local.node peer.updated_at peer.node,
  version_ltb_irrefl (version_of peer),
)

winner-local :
    (o : Option Job) (peer : Job) (v : Version) → AtLeast v o → AtLeast v (some (winner o peer))
unfolding winner
winner-local none peer v h = absurd h
winner-local (some local) peer v h = ground (
  arith,
  job_less-eq local.updated_at local.node peer.updated_at peer.node,
  version_ltb_asym (version_of local) (version_of peer),
  version_ltb-false_trans (version_of peer) (version_of local) v,
)

merge_job-local :
    (jq : JobQueue) (peer : Job) (job_id : String) (v : Version)
    → Pointed jq.heap jq.job_index
    → AtLeast v (entry jq job_id)
    → AtLeast v (entry (merge_job jq peer) job_id)
merge_job-local jq peer job_id v p h =
    rw (merge_job-entry jq peer job_id p) (elim (Bool-cases (str_eq peer.id job_id)) [
      | inl hit ↦ rw hit (winner-local (entry jq job_id) peer v h)
      | inr miss ↦ rw miss h
    ])

merge_job-peer :
    (jq : JobQueue) (peer : Job)
    → Pointed jq.heap jq.job_index
    → AtLeast (version_of peer) (entry (merge_job jq peer) peer.id)
merge_job-peer jq peer p =
    rw (merge_job-entry jq peer peer.id p, (eq_iff peer.id peer.id).1 refl)
      (winner-peer (entry jq peer.id) peer)

merge_jobs-local :
    (jq : JobQueue) (peers : List Job) (job_id : String) (v : Version)
    → Pointed jq.heap jq.job_index
    → AtLeast v (entry jq job_id)
    → AtLeast v (entry (merge_jobs jq peers) job_id)
unfolding merge_jobs
merge_jobs-local jq [] job_id v p h = h
merge_jobs-local jq (peer ∷ rest) job_id v p h =
    merge_jobs-local (merge_job jq peer) rest job_id v (merge_job-Pointed jq peer p)
      (merge_job-local jq peer job_id v p h)

-- One of a peer's jobs.
pub data Among (job : Job) : List Job → Type 0 where
  here : {rest : List Job} → Among job (job ∷ rest)
  there : {peer : Job} {rest : List Job} → Among job rest → Among job (peer ∷ rest)

merge_jobs-peer :
    (job : Job) (jq : JobQueue) {peers : List Job}
    → Pointed jq.heap jq.job_index
    → Among job peers
    → AtLeast (version_of job) (entry (merge_jobs jq peers) job.id)
unfolding merge_jobs
merge_jobs-peer job jq p (here {rest = rest}) =
    merge_jobs-local (merge_job jq job) rest job.id (version_of job) (merge_job-Pointed jq job p)
      (merge_job-peer jq job p)
merge_jobs-peer job jq p (there {peer = peer} m) =
    merge_jobs-peer job (merge_job jq peer) (merge_job-Pointed jq peer p) m

winner-cases : (o : Option Job) (peer : Job) → (some (winner o peer) ≡ o) ⊎ (winner o peer ≡ peer)
unfolding winner
winner-cases none peer = inr refl
winner-cases (some local) peer =
    elim (Bool-cases (job_less local.updated_at local.node peer.updated_at peer.node)) [
      | inl newer ↦ inr (rw newer refl)
      | inr older ↦ inl (rw older refl)
    ]

winner-origin :
    (jq : JobQueue) (peer : Job) (job_id : String)
    → Pointed jq.heap jq.job_index
    → (entry (merge_job jq peer) job_id ≡ entry jq job_id)
      ⊎ ((peer.id ≡ job_id) × (entry (merge_job jq peer) job_id ≡ some peer))
winner-origin jq peer job_id p = elim (Bool-cases (str_eq peer.id job_id)) [
  | inr miss ↦ inl (merge_job-entry jq peer job_id p ∙ rw miss refl)
  | inl hit ↦
      let found : entry (merge_job jq peer) job_id ≡ some (winner (entry jq job_id) peer) =
        merge_job-entry jq peer job_id p ∙ rw hit refl in
      elim (winner-cases (entry jq job_id) peer) [
        | inl kept ↦ inl (found ∙ kept)
        | inr new ↦ inr ((eq_iff peer.id job_id).0 hit, found ∙ ap some new)
      ]
]

-- A job that a merge leaves was there under its id, or was sent under it.
merge_jobs-origin :
    (jq : JobQueue) (peers : List Job) (job_id : String)
    → Pointed jq.heap jq.job_index
    → (entry (merge_jobs jq peers) job_id ≡ entry jq job_id)
      ⊎ ((job : Job) × Among job peers
          × (job.id ≡ job_id)
          × (entry (merge_jobs jq peers) job_id ≡ some job))
unfolding merge_jobs
merge_jobs-origin jq [] job_id p = inl refl
merge_jobs-origin jq (peer ∷ rest) job_id p =
    elim (merge_jobs-origin (merge_job jq peer) rest job_id (merge_job-Pointed jq peer p)) [
      | inr (job, m, e, s) ↦ inr (job, there m, e, s)
      | inl same ↦ elim (winner-origin jq peer job_id p) [
        | inl kept ↦ inl (same ∙ kept)
        | inr (e, s) ↦ inr (peer, here, e, same ∙ s)
      ]
    ]

entry_same :
    (jq jq' : JobQueue) (job_id : String)
    → jq'.heap ≡ jq.heap
    → jq'.job_index ≡ jq.job_index
    → entry jq' job_id ≡ entry jq job_id
unfolding entry find_job
entry_same jq jq' job_id h i = rw (h, i) refl

-- Where the index points into the heap and has every pending job, a merge does not panic, and
-- leaves the pending jobs in their order. The job that it leaves under an id is the one that was
-- there, or one that the peer sent under it; it is no older than the one that was there, and than
-- every one that the peer sent.
pub merge_snapshot_lem :
    (jq : JobQueue) (peers : List Job)
    → Pointed jq.heap jq.job_index
    → all_found jq jq.pending_jobs ≡ true
    → (jq' : JobQueue) × (merge_snapshot jq peers ≡ some jq')
      × Sorted (job_before jq') jq'.pending_jobs
      × ((job_id : String)
          → (entry jq' job_id ≡ entry jq job_id)
            ⊎ ((job : Job) × Among job peers × (job.id ≡ job_id) × (entry jq' job_id ≡ some job)))
      × ((job_id : String) (v : Version)
          → AtLeast v (entry jq job_id)
          → AtLeast v (entry jq' job_id))
      × ((job : Job) → Among job peers → AtLeast (version_of job) (entry jq' job.id))
unfolding merge_snapshot
merge_snapshot_lem jq peers p all =
    let mid = merge_jobs jq peers in
    let found =
      Found-all_found mid mid.pending_jobs
        (merge_jobs-Found jq peers p (all_found-Found jq jq.pending_jobs all)) in
    let (jq', e, ordered, heap, index, same, kept) = sort_pending_jobs-Sorted mid found in
    (
      jq',
      e,
      ordered,
      λ job_id. rw (entry_same mid jq' job_id heap index) (merge_jobs-origin jq peers job_id p),
      λ job_id v h.
          rw (entry_same mid jq' job_id heap index) (merge_jobs-local jq peers job_id v p h),
      λ job m. rw (entry_same mid jq' job.id heap index) (merge_jobs-peer job jq p m),
    )
