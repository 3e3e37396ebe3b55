-- ===== src/Queue/Panic.antt =====
-- A claim that panics (GetNextJob of queue/job.go).
use toll_mesh_store.Common.{
  ℕ, ◌≡◌, ◌≢◌, refl, ap, ◌∙◌, true, false, ltb, ◌==◌, String, lookup, some, List, [], ◌∷◌, length,
  get_elem?, get_elem?-set_ne, arith,
}
use toll_mesh_store.Queue.{Job, JobQueue, panicked, find_job, write_job}
use toll_mesh_store.Queue.Claiming.{
  is_pending, move_to_dead_letter, shift, remove_at, is_late, claim_from, get_next_job,
}

find_job-write :
    (jq : JobQueue) (job_id : String) (a b : ℕ) (new job : Job)
    → a ≢ b
    → find_job jq job_id ≡ some (b, job)
    → find_job (write_job jq a new) job_id ≡ some (b, job)
unfolding find_job
find_job-write jq job_id a b new job n h =
    let index : lookup job_id jq.job_index ≡ some b = ground (arith, h) in
    let there : get_elem? jq.heap b ≡ some job = ground (arith, h, index) in
    let stays = get_elem?-set_ne jq.heap a b new n in
    rw (find_job, index) (rw stays (rw there refl))

-- The queue after its first pending job went to the dead letters.
abbrev without_first : JobQueue → String → ℕ → Job → JobQueue
without_first jq y a late = record (move_to_dead_letter jq a late "deadline exceeded") {
  pending_jobs = y ∷ [];
}

find_job-write_late :
    (jq : JobQueue) (y : String) (a b : ℕ) (late next : Job)
    → a ≢ b
    → find_job jq y ≡ some (b, next)
    → find_job (without_first jq y a late) y ≡ some (b, next)
unfolding move_to_dead_letter find_job
find_job-write_late jq y a b late next n f =
    find_job-write jq y a b (record late { error = "deadline exceeded" }) next n f

ranged :
    (jq : JobQueue) (worker_id : String) (now : ℕ) (ids : List String)
    → jq.pending_jobs ≡ ids
    → (length ids == 0) ≡ false
    → get_next_job jq worker_id now ≡ claim_from jq worker_id now ids 0 (length ids)
unfolding get_next_job
ranged jq worker_id now ids p h = ground (arith, p, h)

first_late :
    (jq : JobQueue) (worker_id x y : String) (now a : ℕ) (late : Job)
    → ltb 0 (length jq.pending_jobs) ≡ true
    → find_job jq x ≡ some (a, late)
    → is_late late now ≡ true
    → claim_from jq worker_id now (x ∷ y ∷ []) 0 2
      ≡ claim_from
          (record (move_to_dead_letter jq a late "deadline exceeded") {
            pending_jobs = remove_at 0 jq.pending_jobs;
          })
          worker_id
          now
          (shift 0 (length jq.pending_jobs) (x ∷ y ∷ []))
          1
          1
unfolding claim_from
first_late jq worker_id x y now a late fits f l = rw (claim_from, f, l, fits) refl

shifted :
    (jq : JobQueue) (worker_id x y : String) (now a : ℕ) (late : Job)
    → jq.pending_jobs ≡ x ∷ y ∷ []
    → claim_from
        (record (move_to_dead_letter jq a late "deadline exceeded") {
          pending_jobs = remove_at 0 jq.pending_jobs;
        })
        worker_id
        now
        (shift 0 (length jq.pending_jobs) (x ∷ y ∷ []))
        1
        1
      ≡ claim_from (without_first jq y a late) worker_id now (y ∷ y ∷ []) 1 1
unfolding shift remove_at
shifted jq worker_id x y now a late p =
    ap
      (λ ids.
        claim_from
          (record (move_to_dead_letter jq a late "deadline exceeded") {
            pending_jobs = remove_at 0 ids;
          })
          worker_id now (shift 0 (length ids) (x ∷ y ∷ [])) 1 1)
      p

second_behind :
    (jq : JobQueue) (worker_id y : String) (now b : ℕ) (next : Job)
    → jq.pending_jobs ≡ y ∷ []
    → find_job jq y ≡ some (b, next)
    → is_late next now ≡ false
    → is_pending next.status ≡ true
    → claim_from jq worker_id now (y ∷ y ∷ []) 1 1 ≡ panicked
unfolding claim_from
second_behind jq worker_id y now b next p f l fresh = rw (claim_from, f, l, fresh, p) refl

-- A queue whose first pending job is past its deadline, and whose second and last could be
-- claimed, panics instead: the range goes on over the slice as it was, and its second position is
-- behind the end of the shortened one.
pub get_next_job-panics :
    (jq : JobQueue) (worker_id x y : String) (now a b : ℕ) (late next : Job)
    → jq.pending_jobs ≡ x ∷ y ∷ []
    → find_job jq x ≡ some (a, late)
    → find_job jq y ≡ some (b, next)
    → a ≢ b
    → is_late late now ≡ true
    → is_late next now ≡ false
    → is_pending next.status ≡ true
    → get_next_job jq worker_id now ≡ panicked
get_next_job-panics jq worker_id x y now a b late next p fx fy n lx ly fresh =
    ranged jq worker_id now (x ∷ y ∷ []) p refl
    ∙ first_late jq worker_id x y now a late (ground (arith, p)) fx lx
    ∙ shifted jq worker_id x y now a late p
    ∙ second_behind (without_first jq y a late) worker_id y now b next refl
        (find_job-write_late jq y a b late next n fy) ly fresh
