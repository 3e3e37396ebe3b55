-- ===== src/Queue/Entries.antt =====
-- What a queue has under an id, and what one job of a peer changes there (queue/job.go).
use toll_mesh_store.Common.{
  ℕ, ◌≡◌, ◌<◌, refl, sym, ap, ◌∙◌, inl, inr, String, str_eq, eq_iff, Map, lookup, insert,
  lookup-insert, Option, none, some, List, [], ◌∷◌, ◌++◌, length, length-append, get_elem?,
  get_elem?-append, get_elem?-append_lt, if◌then◌else◌, arith, Version, version_ltb, Bool-cases,
  Option-cases,
}
use toll_mesh_store.Queue.{
  JobStatus, pending, processing, completed, failed, cancelled, Job, JobQueue, find_job,
}
use toll_mesh_store.Queue.Finishing.{remove_from_processing}
use toll_mesh_store.Queue.Gossip.{remove_from_pending, job_less, list_by_status, adopt, merge_job}

-- The job that the index has under an id.
unfoldable pub entry : JobQueue → String → Option Job
unfolding find_job
entry jq job_id = elim (find_job jq job_id) [ none ↦ none | some (a, job) ↦ some job ]

-- The job that stays where a peer has one under the same id.
unfoldable pub winner : Option Job → Job → Job
winner none peer = peer
winner (some local) peer =
    if job_less local.updated_at local.node peer.updated_at peer.node then peer else local

abbrev pub version_of : Job → Version
version_of job = (job.updated_at, job.node)

pub job_less-eq :
    (s : ℕ) (m : String) (t : ℕ) (n : String) → job_less s m t n ≡ version_ltb (s, m) (t, n)
unfolding job_less version_ltb
job_less-eq s m t n = ground arith

-- The index points into the heap.
abbrev pub Pointed : List Job → Map ℕ → Type 0
Pointed heap index = (job_id : String) (a : ℕ) → lookup job_id index ≡ some a → a < length heap

pub list_by_status_same :
    (jq : JobQueue) (s : JobStatus) (job_id : String)
    → ((list_by_status jq s job_id).heap ≡ jq.heap)
      × ((list_by_status jq s job_id).job_index ≡ jq.job_index)
      × ((list_by_status jq s job_id).jobs ≡ jq.jobs)
unfolding list_by_status
list_by_status_same jq pending job_id = (refl, refl, refl)
list_by_status_same jq processing job_id = (refl, refl, refl)
list_by_status_same jq completed job_id = (refl, refl, refl)
list_by_status_same jq failed job_id = (refl, refl, refl)
list_by_status_same jq cancelled job_id = (refl, refl, refl)

adopt_same :
    (jq : JobQueue) (o : Option Job) (peer : Job)
    → ((adopt jq o peer).heap ≡ jq.heap ++ peer ∷ [])
      × ((adopt jq o peer).job_index ≡ insert peer.id (length jq.heap) jq.job_index)
unfolding adopt
adopt_same jq none peer =
    let (h, i, j) =
      list_by_status_same
        (record jq {
          heap = jq.heap ++ peer ∷ [];
          jobs = jq.jobs ++ length jq.heap ∷ [];
          job_index = insert peer.id (length jq.heap) jq.job_index;
        })
        peer.status peer.id in
    (h, i)
adopt_same jq (some local) peer =
    let freed = remove_from_processing (remove_from_pending jq local.id) local.id in
    let (h, i, j) =
      list_by_status_same
        (record freed {
          heap = jq.heap ++ peer ∷ [];
          job_index = insert peer.id (length jq.heap) jq.job_index;
        })
        peer.status peer.id in
    (h, i)

-- A queue's index and heap are all that a read by id uses.
entry_of : List Job → Map ℕ → String → Option Job
entry_of heap index job_id = elim (lookup job_id index) [ none ↦ none | some a ↦ get_elem? heap a ]

entry-entry_of :
    (jq : JobQueue) (job_id : String) → entry jq job_id ≡ entry_of jq.heap jq.job_index job_id
unfolding entry entry_of
entry-entry_of jq job_id = ground arith

entry_of-insert :
    (heap : List Job) (index : Map ℕ) (peer : Job) (job_id : String)
    → Pointed heap index
    → entry_of (heap ++ peer ∷ []) (insert peer.id (length heap) index) job_id
      ≡ (if str_eq peer.id job_id then some peer else entry_of heap index job_id)
unfolding entry_of
entry_of-insert heap index peer job_id p = elim (Bool-cases (str_eq peer.id job_id)) [
  | inl hit ↦
      rw (entry_of, hit, lookup-insert peer.id job_id (length heap) index, hit)
        (get_elem?-append heap peer)
  | inr miss ↦ elim (Option-cases (lookup job_id index)) [
    | inl e ↦ rw (entry_of, miss, lookup-insert peer.id job_id (length heap) index, miss, e) refl
    | inr (a, e) ↦
        rw (entry_of, miss, lookup-insert peer.id job_id (length heap) index, miss, e)
          (get_elem?-append_lt heap (peer ∷ []) a (p job_id a e))
  ]
]

pub Pointed-insert :
    (heap : List Job) (index : Map ℕ) (peer : Job)
    → Pointed heap index
    → Pointed (heap ++ peer ∷ []) (insert peer.id (length heap) index)
Pointed-insert heap index peer p job_id a h = ground (
  arith,
  length-append heap (peer ∷ []),
  lookup-insert peer.id job_id (length heap) index,
  h,
  p job_id a,
)

-- A queue that has one job more, under its id.
pub entry-added :
    (jq jq' : JobQueue) (job : Job) (job_id : String)
    → Pointed jq.heap jq.job_index
    → jq'.heap ≡ jq.heap ++ job ∷ []
    → jq'.job_index ≡ insert job.id (length jq.heap) jq.job_index
    → entry jq' job_id ≡ (if str_eq job.id job_id then some job else entry jq job_id)
entry-added jq jq' job job_id p h i =
    entry-entry_of jq' job_id
    ∙ ap (λ heap. entry_of heap jq'.job_index job_id) h
    ∙ ap (λ index. entry_of (jq.heap ++ job ∷ []) index job_id) i
    ∙ entry_of-insert jq.heap jq.job_index job job_id p
    ∙ ap (λ e. if str_eq job.id job_id then some job else e) (sym (entry-entry_of jq job_id))

adopt-entry :
    (jq : JobQueue) (o : Option Job) (peer : Job) (job_id : String)
    → Pointed jq.heap jq.job_index
    → entry (adopt jq o peer) job_id
      ≡ (if str_eq peer.id job_id then some peer else entry jq job_id)
adopt-entry jq o peer job_id p =
    let (h, i) = adopt_same jq o peer in entry-added jq (adopt jq o peer) peer job_id p h i

adopt-Pointed :
    (jq : JobQueue) (o : Option Job) (peer : Job)
    → Pointed jq.heap jq.job_index
    → Pointed (adopt jq o peer).heap (adopt jq o peer).job_index
adopt-Pointed jq o peer p =
    let (h, i) = adopt_same jq o peer in rw (h, i) (Pointed-insert jq.heap jq.job_index peer p)

pub merge_job-Pointed :
    (jq : JobQueue) (peer : Job)
    → Pointed jq.heap jq.job_index
    → Pointed (merge_job jq peer).heap (merge_job jq peer).job_index
unfolding merge_job
merge_job-Pointed jq peer p = elim (Option-cases (find_job jq peer.id)) [
  | inl e ↦ rw (merge_job, e) (adopt-Pointed jq none peer p)
  | inr ((a, local), e) ↦
      elim (Bool-cases (job_less local.updated_at local.node peer.updated_at peer.node)) [
        | inl newer ↦ rw (merge_job, e, newer) (adopt-Pointed jq (some local) peer p)
        | inr older ↦ rw (merge_job, e, older) p
      ]
]

under :
    (jq : JobQueue) (peer : Job) (job_id : String) (o : Option Job)
    → entry jq peer.id ≡ o
    → winner o peer ≡ peer
    → (if str_eq peer.id job_id then some peer else entry jq job_id)
      ≡ (if str_eq peer.id job_id then some (winner (entry jq job_id) peer) else entry jq job_id)
under jq peer job_id o e w = ground (arith, e, w, eq_iff peer.id job_id)

stays_under :
    (jq : JobQueue) (peer : Job) (job_id : String) (local : Job)
    → entry jq peer.id ≡ some local
    → winner (some local) peer ≡ local
    → entry jq job_id
      ≡ (if str_eq peer.id job_id then some (winner (entry jq job_id) peer) else entry jq job_id)
stays_under jq peer job_id local e w = ground (arith, e, w, eq_iff peer.id job_id)

pub find_job-entry :
    (jq : JobQueue) (job_id : String) (o : Option (ℕ × Job))
    → find_job jq job_id ≡ o
    → entry jq job_id ≡ (elim o [ none ↦ none | some (a, job) ↦ some job ])
unfolding entry
find_job-entry jq job_id none h = rw (entry, h) refl
find_job-entry jq job_id (some (a, job)) h = rw (entry, h) refl

-- What a merge of one job leaves under an id.
pub merge_job-entry :
    (jq : JobQueue) (peer : Job) (job_id : String)
    → Pointed jq.heap jq.job_index
    → entry (merge_job jq peer) job_id
      ≡ (if str_eq peer.id job_id then some (winner (entry jq job_id) peer) else entry jq job_id)
unfolding merge_job winner
merge_job-entry jq peer job_id p = elim (Option-cases (find_job jq peer.id)) [
  | inl e ↦
      rw (merge_job, e)
        (adopt-entry jq none peer job_id p
          ∙ under jq peer job_id none (find_job-entry jq peer.id none e) refl)
  | inr ((a, local), e) ↦
      elim (Bool-cases (job_less local.updated_at local.node peer.updated_at peer.node)) [
        | inl newer ↦
            rw (merge_job, e, newer)
              (adopt-entry jq (some local) peer job_id p
                ∙ under jq peer job_id (some local) (find_job-entry jq peer.id (some (a, local)) e)
                    (rw (winner, newer) refl))
        | inr older ↦
            rw (merge_job, e, older)
              (stays_under jq peer job_id local (find_job-entry jq peer.id (some (a, local)) e)
                (rw (winner, older) refl))
      ]
]
