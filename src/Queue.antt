-- ===== src/Queue.antt =====
-- A job queue (queue/job.go).
--
-- `Jobs`, `JobIndex` and the dead letter queue share pointers to jobs, so jobs stand in a heap under
-- addresses and those three hold addresses. The readings of the clock in one call are one number
-- of nanoseconds. A nil pointer and a slice bound out of range panic.
pub mod Claiming
pub mod Claims
pub mod Finishing
pub mod Retries
pub mod Order
pub mod Gossip
pub mod Entries
pub mod Found
pub mod Merging
pub mod Stale
pub mod Enqueueing
pub mod Panic
pub mod Tests
use toll_mesh_store.Common.{
  ℕ, ◌+◌, ◌%◌, Bool, true, ◌&&◌, not, ◌==◌, ltb, if◌then◌else◌, String, ◌⧺◌, decimal, Bytes, Map,
  lookup, insert, is_some, Option, none, some, List, ◌∷◌, ◌++◌, length, set, get_elem?, sort, milli,
  [],
}
use toll_mesh_store.Core.Crdt.{copy_into}

pub data JobStatus : Type 0 where
  pending processing completed failed cancelled : JobStatus

pub record Job : Type 0 where
  pub id : String
  pub queue : String
  pub payload : Bytes
  pub status : JobStatus
  pub priority : ℕ
  pub timestamp : ℕ
  pub vector_clock : Map ℕ
  pub retry_count : ℕ
  pub max_retries : ℕ
  pub processed_by : String
  pub result : Bytes
  pub error : String
  pub created_at : ℕ
  pub updated_at : ℕ
  pub deadline_at : ℕ
  pub process_started : ℕ
  pub process_ended : ℕ
  pub node : String

pub record Worker : Type 0 where
  pub id : String
  pub queue : String
  pub last_heartbeat : ℕ
  pub processing_job : String
  pub completed_jobs : ℕ

-- The factor is a float in the code, and 2 in every queue that it makes.
pub record RetryPolicy : Type 0 where
  pub max_retries : ℕ
  pub initial_backoff : ℕ
  pub max_backoff : ℕ
  pub backoff_factor : ℕ

pub record JobQueue : Type 0 where
  pub name : String
  pub heap : List Job
  pub jobs : List ℕ
  pub job_index : Map ℕ
  pub pending_jobs : List String
  pub processing_jobs : List String
  pub subscribers : Map Worker
  pub vector_clock : Map ℕ
  pub lamport_clock : ℕ
  pub max_age : ℕ
  pub retry_policy : RetryPolicy
  pub dead_letters : List ℕ
  pub dead_letter_max : ℕ
  pub node_id : String

unfoldable pub new_job_queue : String → ℕ → String → JobQueue
new_job_queue name max_age node_id = record {
  name = name;
  heap = [];
  jobs = [];
  job_index = [];
  pending_jobs = [];
  processing_jobs = [];
  subscribers = [];
  vector_clock = [];
  lamport_clock = 0;
  max_age = max_age;
  retry_policy = record {
    max_retries = 3;
    initial_backoff = 1_000_000_000;
    max_backoff = 30_000_000_000;
    backoff_factor = 2;
  };
  dead_letters = [];
  dead_letter_max = 10000;
  node_id = node_id;
}

pub data Error : Type 0 where
  no_pending no_claimable : Error
  not_found not_processing : String → Error

-- How a call ends.
pub data Outcome (A : Type 0) : Type 0 where
  panicked : Outcome A
  done : JobQueue → A → Outcome A

-- `jq.JobIndex[id]`, with the address and the job that is there.
unfoldable pub find_job : JobQueue → String → Option (ℕ × Job)
find_job jq job_id = elim (lookup job_id jq.job_index) [
  | none ↦ none
  | some a ↦ elim (get_elem? jq.heap a) [ none ↦ none | some job ↦ some (a, job) ]
]

abbrev pub write_job : JobQueue → ℕ → Job → JobQueue
write_job jq a job = record jq { heap = set jq.heap a job }

abbrev pub priority_of : Option (ℕ × Job) → ℕ × ℕ
priority_of none = (0, 0)
priority_of (some (a, job)) = (job.priority, job.timestamp)

unfoldable pub job_before : JobQueue → String → String → Bool
unfolding find_job
job_before jq i j =
    let (pi, ti) = priority_of (find_job jq i) in
    let (pj, tj) = priority_of (find_job jq j) in if not (pi == pj) then ltb pj pi else ltb ti tj

unfoldable pub all_found : JobQueue → List String → Bool
unfolding find_job
all_found jq [] = true
all_found jq (job_id ∷ rest) = is_some (find_job jq job_id) && all_found jq rest

-- Two jobs or more are compared, each at least once, and the comparison reads through the pointer.
unfoldable pub sort_pending_jobs : JobQueue → Option JobQueue
unfolding job_before all_found sort
sort_pending_jobs jq =
    if ltb 1 (length jq.pending_jobs) && not (all_found jq jq.pending_jobs)
    then none
    else some (record jq { pending_jobs = sort (job_before jq) jq.pending_jobs })

abbrev pub sorted : {A : Type 0} → Option JobQueue → A → Outcome A
sorted none a = panicked
sorted (some jq) a = done jq a

unfoldable pub enqueue : JobQueue → Bytes → ℕ → ℕ → ℕ → ℕ → Outcome ℕ
unfolding sort_pending_jobs
enqueue jq payload priority max_retries deadline now =
    let ts = jq.lamport_clock + 1 in
    let job_id = "job-" ⧺ decimal ts ⧺ "-" ⧺ decimal (now % 1000) in
    let a = length jq.heap in
    let job : Job = record {
      id = job_id;
      queue = jq.name;
      payload = payload;
      status = pending;
      priority = priority;
      timestamp = ts;
      vector_clock = copy_into [] jq.vector_clock;
      retry_count = 0;
      max_retries = max_retries;
      processed_by = "";
      result = [];
      error = "";
      created_at = milli now;
      updated_at = milli now;
      deadline_at = milli (now + deadline);
      process_started = 0;
      process_ended = 0;
      node = jq.node_id;
    } in
    sorted
      (sort_pending_jobs (record jq {
        lamport_clock = ts;
        heap = jq.heap ++ job ∷ [];
        jobs = jq.jobs ++ a ∷ [];
        job_index = insert job_id a jq.job_index;
        pending_jobs = jq.pending_jobs ++ job_id ∷ [];
      }))
      a
