-- ===== src/Queue/Claims.antt =====
-- What a claim does to the jobs of a queue (GetNextJob of queue/job.go).
use toll_mesh_store.Common.{
  ℕ, zero, suc, ◌≡◌, ◌≢◌, refl, sym, ap, ◌∙◌, subst, true, ltb, ◌==◌, String, Bool-cases,
  Option-cases, inl, inr, Option, none, some, List, length, set, get_elem?, get_elem?-set_self,
  get_elem?-set_ne, get_elem?-lt, arith, ℕ_discrete,
}
use toll_mesh_store.Queue.{
  JobStatus, pending, processing, completed, failed, cancelled, Job, JobQueue, Outcome, panicked,
  done, find_job,
}
use toll_mesh_store.Queue.Claiming.{
  is_pending, move_to_dead_letter, shift, remove_at, is_late, claim, Claim, claimed, refused,
  claim_from, get_next_job,
}

abbrev pub status_in : Option Job → Option JobStatus
status_in none = none
status_in (some job) = some job.status

abbrev pub status_at : JobQueue → ℕ → Option JobStatus
status_at jq a = status_in (get_elem? jq.heap a)

abbrev worker_in : Option Job → Option String
worker_in none = none
worker_in (some job) = some job.processed_by

abbrev pub worker_at : JobQueue → ℕ → Option String
worker_at jq a = worker_in (get_elem? jq.heap a)

-- A call that claims took a job that was pending, which is now the worker's, and left the status
-- of every other; a call that is refused left every status.
abbrev pub Claims : JobQueue → String → Outcome Claim → Type 0
Claims jq worker_id panicked = Unit
Claims jq worker_id (done jq' (refused e)) = (b : ℕ) → status_at jq' b ≡ status_at jq b
Claims jq worker_id (done jq' (claimed a)) =
    (status_at jq a ≡ some pending)
    × (status_at jq' a ≡ some processing)
    × (worker_at jq' a ≡ some worker_id)
    × ((b : ℕ) → a ≢ b → status_at jq' b ≡ status_at jq b)

-- Writes that leave every status.
Claims-after :
    (jq mid : JobQueue) (worker_id : String) (o : Outcome Claim)
    → ((b : ℕ) → status_at mid b ≡ status_at jq b)
    → Claims mid worker_id o
    → Claims jq worker_id o
Claims-after jq mid worker_id panicked same c = tt
Claims-after jq mid worker_id (done jq' (refused e)) same c = λ b. c b ∙ same b
Claims-after jq mid worker_id (done jq' (claimed a)) same c =
    (sym (same a) ∙ c.0, c.1, c.2, λ b h. c.3 b h ∙ same b)

pub find_job-heap :
    (jq : JobQueue) (job_id : String) (a : ℕ) (job : Job)
    → find_job jq job_id ≡ some (a, job)
    → get_elem? jq.heap a ≡ some job
unfolding find_job
find_job-heap jq job_id a job h = ground (arith, h)

-- The job that is there after a write, and those that are elsewhere.
pub written :
    (xs : List Job) (a : ℕ) (job new : Job)
    → get_elem? xs a ≡ some job
    → (get_elem? (set xs a new) a ≡ some new)
      × ((b : ℕ) → a ≢ b → get_elem? (set xs a new) b ≡ get_elem? xs b)
written xs a job new h =
    (get_elem?-set_self xs a new (get_elem?-lt xs a job h), λ b n. get_elem?-set_ne xs a b new n)

pub move_to_dead_letter-status :
    (jq : JobQueue) (a : ℕ) (job : Job) (reason : String) (b : ℕ)
    → get_elem? jq.heap a ≡ some job
    → status_at (move_to_dead_letter jq a job reason) b ≡ status_at jq b
unfolding move_to_dead_letter
move_to_dead_letter-status jq a job reason b h =
    let (self, others) = written jq.heap a job (record job { error = reason }) h in
    elim (ℕ_discrete a b) [
      | yes e ↦
          subst (λ x. status_at (move_to_dead_letter jq a job reason) x ≡ status_at jq x) e
            (ap status_in self ∙ sym (ap status_in h))
      | no n ↦ ap status_in (others b n)
    ]

is_pending_lem : (s : JobStatus) → is_pending s ≡ true → s ≡ pending
is_pending_lem pending h = refl
is_pending_lem processing h = absurd (cc)
is_pending_lem completed h = absurd (cc)
is_pending_lem failed h = absurd (cc)
is_pending_lem cancelled h = absurd (cc)

claim-Claims :
    (jq : JobQueue) (worker_id : String) (now i : ℕ) (job_id : String) (a : ℕ) (job : Job)
    → get_elem? jq.heap a ≡ some job
    → is_pending job.status ≡ true
    → Claims jq worker_id (done (claim jq worker_id now i job_id a job) (claimed a))
unfolding claim
claim-Claims jq worker_id now i job_id a job h fresh =
    let (self, others) = written jq.heap a job _ h in
    (
      ap status_in h ∙ ap some (is_pending_lem job.status fresh),
      ap status_in self,
      ap worker_in self,
      λ b n. ap status_in (others b n),
    )

claim_from-Claims :
    (jq : JobQueue) (worker_id : String) (now : ℕ) (array : List String) (i left : ℕ)
    → Claims jq worker_id (claim_from jq worker_id now array i left)
unfolding claim_from
claim_from-Claims jq worker_id now array i zero = λ b. refl
claim_from-Claims jq worker_id now array i (suc left) = elim (Option-cases (get_elem? array i)) [
  | inl e ↦ rw (claim_from, e) tt
  | inr (job_id, e) ↦ elim (Option-cases (find_job jq job_id)) [
    | inl f ↦ rw (claim_from, e, f) tt
    | inr ((a, job), f) ↦ elim (Bool-cases (is_late job now)) [
      | inl late ↦ elim (Bool-cases (ltb i (length jq.pending_jobs))) [
        | inl fits ↦
            let dead = move_to_dead_letter jq a job "deadline exceeded" in
            let mid = record dead { pending_jobs = remove_at i jq.pending_jobs } in
            rw (claim_from, e, f, late, fits)
              (Claims-after jq mid worker_id _
                (λ b.
                  move_to_dead_letter-status jq a job "deadline exceeded" b
                    (find_job-heap jq job_id a job f))
                (claim_from-Claims mid worker_id now (shift i (length jq.pending_jobs) array)
                  (suc i) left))
        | inr out ↦ rw (claim_from, e, f, late, out) tt
      ]
      | inr timely ↦ elim (Bool-cases (is_pending job.status)) [
        | inl fresh ↦ elim (Bool-cases (ltb i (length jq.pending_jobs))) [
          | inl fits ↦
              rw (claim_from, e, f, timely, fresh, fits)
                (claim-Claims jq worker_id now i job_id a job (find_job-heap jq job_id a job f)
                  fresh)
          | inr out ↦ rw (claim_from, e, f, timely, fresh, out) tt
        ]
        | inr taken ↦
            rw (claim_from, e, f, timely, taken)
              (claim_from-Claims jq worker_id now array (suc i) left)
      ]
    ]
  ]
]

-- A call that returns a job found it pending, and leaves it processing, in the worker's name; it
-- changes the status of no other job, so that no second call returns that job while it is
-- processed. A call that returns an error changes no status.
pub get_next_job-Claims :
    (jq : JobQueue) (worker_id : String) (now : ℕ)
    → Claims jq worker_id (get_next_job jq worker_id now)
unfolding get_next_job
get_next_job-Claims jq worker_id now = elim (Bool-cases (length jq.pending_jobs == 0)) [
  | inl empty ↦ rw (get_next_job, empty) (λ b. refl)
  | inr some_left ↦
      rw (get_next_job, some_left)
        (claim_from-Claims jq worker_id now jq.pending_jobs 0 (length jq.pending_jobs))
]
