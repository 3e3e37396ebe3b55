-- ===== src/Manager.antt =====
-- The job manager: the queues of a node by name (queue/job_manager.go).
--
-- The pointer to a queue stands in the map only, so the map holds the queues. A call on a queue may
-- panic, which ends the process.
pub mod Cleanup
pub mod Calls
pub mod Eviction
pub mod Loops
pub mod Active
pub mod Tests
use toll_mesh_store.Common.{
  ℕ, ◌+◌, Bool, true, false, ◌&&◌, ◌||◌, not, ◌==◌, ltb, if◌then◌else◌, String, str_eq, Bytes, Map,
  lookup, insert, or_empty, Option, none, some, List, [], ◌∷◌, ◌++◌, milli, get_elem?,
}
use toll_mesh_store.Queue.{
  JobStatus, pending, Job, JobQueue, new_job_queue, Outcome, done, panicked, enqueue, find_job,
  write_job, sort_pending_jobs,
}
use toll_mesh_store.Queue
use toll_mesh_store.Queue.Claiming.{Claim, claimed, refused, get_next_job}
use toll_mesh_store.Queue.Finishing.{mark_complete, mark_failed}
use toll_mesh_store.Queue.Gossip

pub record JobManager : Type 0 where
  pub queues : Map JobQueue
  pub node_id : String
  pub acknowledgments : Map (Map ℕ)
  pub peers : List String

unfoldable pub new_job_manager : String → JobManager
new_job_manager node_id = record {
  queues = [];
  node_id = node_id;
  acknowledgments = [];
  peers = [];
}

unfoldable pub get_queue : JobManager → String → Option JobQueue
get_queue jm name = lookup name jm.queues

-- 24 hours, in nanoseconds.
abbrev day : ℕ
day = 86_400_000_000_000

unfoldable pub get_or_create_queue : JobManager → String → JobManager × JobQueue
get_or_create_queue jm name = elim (lookup name jm.queues) [
  | some q ↦ (jm, q)
  | none ↦
      let q = new_job_queue name day jm.node_id in
      (
        record jm {
          queues = insert name q jm.queues;
          acknowledgments = insert name [] jm.acknowledgments;
        },
        q,
      )
]

abbrev pub has_peer : String → List String → Bool
has_peer peer_id [] = false
has_peer peer_id (p ∷ peers) = str_eq p peer_id || has_peer peer_id peers

unfoldable pub register_peer : JobManager → String → JobManager
register_peer jm peer_id =
    if has_peer peer_id jm.peers then jm else record jm { peers = jm.peers ++ peer_id ∷ [] }

pub record JobOptions : Type 0 where
  pub priority : ℕ
  pub max_retries : ℕ
  pub deadline : ℕ

unfoldable pub default_job_options : JobOptions
default_job_options = record { priority = 5; max_retries = 3; deadline = day }

pub data Error : Type 0 where
  queue_not_found not_in_dead_letters : String → Error
  queue_error : Queue.Error → Error

-- How a call of the manager ends.
pub data Result (A : Type 0) : Type 0 where
  crashed : Result A
  returned : JobManager → A → Result A

-- The manager after a call on the queue of this name.
abbrev pub after : {A B : Type 0} → JobManager → String → Outcome A → (A → B) → Result B
after jm name panicked f = crashed
after jm name (done q a) f = returned (record jm { queues = insert name q jm.queues }) (f a)

unfoldable pub enqueue_in : JobManager → String → Bytes → JobOptions → ℕ → Result ℕ
unfolding get_or_create_queue enqueue
enqueue_in jm name payload opts now =
    let (jm', q) = get_or_create_queue jm name in
    after jm' name (enqueue q payload opts.priority opts.max_retries opts.deadline now) (λ a. a)

-- The address of the job, or the error.
pub data Reply : Type 0 where
  job_at : ℕ → Reply
  error : Error → Reply

abbrev pub reply_of : Claim → Reply
reply_of (claimed a) = job_at a
reply_of (refused e) = error (queue_error e)

unfoldable pub claim_job : JobManager → String → String → ℕ → Result Reply
unfolding get_queue get_next_job
claim_job jm name worker_id now = elim (get_queue jm name) [
  | none ↦ returned jm (error (queue_not_found name))
  | some q ↦ after jm name (get_next_job q worker_id now) reply_of
]

abbrev pub or_zero : Option ℕ → ℕ
or_zero none = 0
or_zero (some n) = n

unfoldable pub acknowledge_job : JobManager → String → String → JobManager
acknowledge_job jm name job_id =
    let acks = or_empty (lookup name jm.acknowledgments) in
    record jm {
      acknowledgments =
          insert name (insert job_id (or_zero (lookup job_id acks) + 1) acks) jm.acknowledgments;
    }

abbrev pub error_of : Option Queue.Error → Option Error
error_of none = none
error_of (some e) = some (queue_error e)

-- A completion is acknowledged where the queue gave no error.
abbrev pub acknowledged : String → String → Result (Option Error) → Result (Option Error)
acknowledged name job_id crashed = crashed
acknowledged name job_id (returned jm (some e)) = returned jm (some e)
acknowledged name job_id (returned jm none) = returned (acknowledge_job jm name job_id) none

unfoldable pub complete_job : JobManager → String → String → Bytes → ℕ → Result (Option Error)
unfolding get_queue mark_complete acknowledge_job
complete_job jm name job_id result now = elim (get_queue jm name) [
  | none ↦ returned jm (some (queue_not_found name))
  | some q ↦ acknowledged name job_id (after jm name (mark_complete q job_id result now) error_of)
]

unfoldable pub fail_job : JobManager → String → String → String → ℕ → Result (Option Error)
unfolding get_queue mark_failed
fail_job jm name job_id err_msg now = elim (get_queue jm name) [
  | none ↦ returned jm (some (queue_not_found name))
  | some q ↦ after jm name (mark_failed q job_id err_msg now) error_of
]

abbrev pub status_reply : Gossip.Status → Reply
status_reply (Gossip.at a job) = job_at a
status_reply (Gossip.missing e) = error (queue_error e)

unfoldable pub get_job_status : JobManager → String → String → Reply
unfolding get_queue Gossip.get_status
get_job_status jm name job_id = elim (get_queue jm name) [
  | none ↦ error (queue_not_found name)
  | some q ↦ status_reply (Gossip.get_status q job_id)
]

unfoldable pub snapshots : Map JobQueue → Map (List Job)
unfolding Gossip.snapshot
snapshots [] = []
snapshots ((name, q) ∷ rest) = (name, Gossip.snapshot q) ∷ snapshots rest

unfoldable pub snapshot : JobManager → Map (List Job)
unfolding snapshots
snapshot jm = snapshots jm.queues

abbrev pub merged : JobManager → String → Option JobQueue → Option JobManager
merged jm name none = none
merged jm name (some q) = some (record jm { queues = insert name q jm.queues })

-- `none` is a panic.
unfoldable pub merge_snapshot : JobManager → Map (List Job) → Option JobManager
unfolding get_or_create_queue Gossip.merge_snapshot
merge_snapshot jm [] = some jm
merge_snapshot jm ((name, jobs) ∷ rest) =
    let (jm', q) = get_or_create_queue jm name in
    elim (merged jm' name (Gossip.merge_snapshot q jobs)) [
      | none ↦ none
      | some jm'' ↦ merge_snapshot jm'' rest
    ]

unfoldable pub get_dead_letter_queue : JobManager → String → Option (List ℕ)
unfolding get_queue Gossip.get_dead_letter_queue
get_dead_letter_queue jm name = elim (get_queue jm name) [
  | none ↦ none
  | some q ↦ some (Gossip.get_dead_letter_queue q)
]

-- The first dead letter with the id.
unfoldable pub find_dead : List Job → String → List ℕ → Option (ℕ × Job)
find_dead heap job_id [] = none
find_dead heap job_id (a ∷ rest) =
    let later = find_dead heap job_id rest in
    elim (get_elem? heap a) [
      | none ↦ later
      | some job ↦ if str_eq job.id job_id then some (a, job) else later
    ]

abbrev pub replayed : JobManager → String → Option JobQueue → Result (Option Error)
replayed jm name none = crashed
replayed jm name (some q) = returned (record jm { queues = insert name q jm.queues }) none

-- The queue with the dead letter put back, before the sort. The job stays among the dead letters, and
-- the index is not asked for it.
unfoldable pub put_back : JobQueue → String → ℕ → Job → ℕ → JobQueue
put_back q job_id a job now =
    let fresh : Job = record job {
      status = pending;
      retry_count = 0;
      error = "";
      updated_at = milli now;
    } in
    record (write_job q a fresh) { pending_jobs = q.pending_jobs ++ job_id ∷ [] }

unfoldable pub replay_dead_letter : JobManager → String → String → ℕ → Result (Option Error)
unfolding get_queue find_dead put_back sort_pending_jobs
replay_dead_letter jm name job_id now = elim (get_queue jm name) [
  | none ↦ returned jm (some (queue_not_found name))
  | some q ↦ elim (find_dead q.heap job_id q.dead_letters) [
    | none ↦ returned jm (some (not_in_dead_letters job_id))
    | some (a, job) ↦ replayed jm name (sort_pending_jobs (put_back q job_id a job now))
  ]
]
