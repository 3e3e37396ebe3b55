-- ===== src/Manager/Loops.antt =====
-- The loops of a cleanup over the pending and the processing jobs (cleanupExpiredJobs of queue/job_manager.go).
use toll_mesh_store.Common.{
  ℕ, ◌≡◌, refl, ap, subst, ◌∙◌, inl, inr, true, false, ◌&&◌, ltb, String, lookup, Option, none,
  some, List, [], ◌∷◌, ◌++◌, set, get_elem?, is_some, ℕ_discrete, arith, Bool-cases, Option-cases,
  sort,
}
use toll_mesh_store.Queue.{
  pending, Job, JobQueue, find_job, write_job, sort_pending_jobs, job_before,
}
use toll_mesh_store.Queue.Claiming.{move_to_dead_letter}
use toll_mesh_store.Queue.Claims.{written, find_job-heap}
use toll_mesh_store.Queue.Found.{Found, Found-mono, Found-append, Found-all_found}
use toll_mesh_store.Manager.Cleanup.{expire_from, is_stuck, requeue_from, is_terminal}

-- A job that a loop has written over another: the id stays, and a job that had not ended has not.
pub record Follows (old job : Job) : Type 0 where
  pub same_id : job.id ≡ old.id
  pub active : is_terminal old.status ≡ false → is_terminal job.status ≡ false

-- What a loop leaves of the jobs at their addresses.
pub record Keeps (before after : List Job) : Type 0 where
  pub forward :
      (a : ℕ) (old : Job)
      → get_elem? before a ≡ some old
      → (job : Job) × (get_elem? after a ≡ some job) × Follows old job
  pub gone : (a : ℕ) → get_elem? before a ≡ none → get_elem? after a ≡ none

Keeps-refl : (heap : List Job) → Keeps heap heap
Keeps-refl heap = record {
  forward = λ a old e. (old, e, record { same_id = refl; active = λ t. t });
  gone = λ a e. e;
}

Keeps-trans : (xs ys zs : List Job) → Keeps xs ys → Keeps ys zs → Keeps xs zs
Keeps-trans xs ys zs k l = record {
  forward = λ a old e.
      let (mid, f, p) = k.forward a old e in
      let (job, g, q) = l.forward a mid f in
      (job, g, record { same_id = q.same_id ∙ p.same_id; active = λ t. q.active (p.active t) });
  gone = λ a e. l.gone a (k.gone a e);
}

-- A write over a job.
Keeps-set :
    (heap : List Job) (a : ℕ) (old new : Job)
    → get_elem? heap a ≡ some old
    → Follows old new
    → Keeps heap (set heap a new)
Keeps-set heap a old new h t =
    let (self, others) = written heap a old new h in
    record {
      forward = λ b was e. elim (ℕ_discrete a b) [
        | yes p ↦
            let same : old ≡ was = let x = ap (get_elem? heap) p in cc in
            (
              new,
              subst (λ x. get_elem? (set heap a new) x ≡ some new) p self,
              subst (λ o. Follows o new) same t,
            )
        | no n ↦ (was, others b n ∙ e, record { same_id = refl; active = λ u. u })
      ];
      gone = λ b e. elim (ℕ_discrete a b) [
        | yes p ↦ absurd (let x = ap (get_elem? heap) p in cc)
        | no n ↦ others b n ∙ e
      ];
    }

-- A queue whose heap a loop has changed, and which is otherwise as it was for a cleanup.
pub record Loop (q q' : JobQueue) : Type 0 where
  pub keeps : Keeps q.heap q'.heap
  pub index : q'.job_index ≡ q.job_index
  pub log : q'.jobs ≡ q.jobs
  pub age : q'.max_age ≡ q.max_age

Loop-refl : (q : JobQueue) → Loop q q
Loop-refl q = record { keeps = Keeps-refl q.heap; index = refl; log = refl; age = refl }

pub Loop-trans : (q mid q' : JobQueue) → Loop q mid → Loop mid q' → Loop q q'
Loop-trans q mid q' k l = record {
  keeps = Keeps-trans q.heap mid.heap q'.heap k.keeps l.keeps;
  index = l.index ∙ k.index;
  log = l.log ∙ k.log;
  age = l.age ∙ k.age;
}

Loop-write :
    (q : JobQueue) (a : ℕ) (old new : Job)
    → get_elem? q.heap a ≡ some old
    → Follows old new
    → Loop q (write_job q a new)
Loop-write q a old new h t = record {
  keeps = Keeps-set q.heap a old new h t;
  index = refl;
  log = refl;
  age = refl;
}

move_to_dead_letter-Loop :
    (q : JobQueue) (a : ℕ) (job : Job) (reason : String)
    → get_elem? q.heap a ≡ some job
    → Loop q (move_to_dead_letter q a job reason)
unfolding move_to_dead_letter
move_to_dead_letter-Loop q a job reason h =
    let w =
      Loop-write q a job (record job { error = reason }) h
        (record { same_id = refl; active = λ t. t }) in
    record { keeps = w.keeps; index = refl; log = refl; age = refl }

move_to_dead_letter_busy :
    (q : JobQueue) (a : ℕ) (job : Job) (reason : String)
    → (move_to_dead_letter q a job reason).processing_jobs ≡ q.processing_jobs
unfolding move_to_dead_letter
move_to_dead_letter_busy q a job reason = refl

-- The index and its heap have a job under an id after a loop, if they had one before.
pub Loop-found :
    (q q' : JobQueue) (i : String)
    → Loop q q'
    → is_some (find_job q i) ≡ true
    → is_some (find_job q' i) ≡ true
unfolding find_job
Loop-found q q' i l h = elim (Option-cases (lookup i q.job_index)) [
  | inl e ↦ absurd (ground (arith, h, e))
  | inr (a, e) ↦ elim (Option-cases (get_elem? q.heap a)) [
    | inl f ↦ absurd (ground (arith, h, e, f))
    | inr (old, f) ↦
        let (job, g, t) = l.keeps.forward a old f in
        let index : lookup i q'.job_index ≡ some a = ap (lookup i) l.index ∙ e in
        rw (find_job, index, g) refl
  ]
]

-- A run of the first loop: it ends, and the ids that stay are in the index.
abbrev pub Expires : JobQueue → Option (JobQueue × List String) → Type 0
Expires q o =
    (q' : JobQueue) × (kept : List String) × (o ≡ some (q', kept))
    × Loop q q'
    × Found q' kept
    × (q'.processing_jobs ≡ q.processing_jobs)

Expires-after :
    (q mid : JobQueue) (o : Option (JobQueue × List String))
    → Loop q mid
    → mid.processing_jobs ≡ q.processing_jobs
    → Expires mid o
    → Expires q o
Expires-after q mid o l b (q', kept, e, m, f, c) = (q', kept, e, Loop-trans q mid q' l m, f, c ∙ b)

pub expire_from-Expires :
    (q : JobQueue) (now : ℕ) (ids kept : List String)
    → Found q ids
    → Found q kept
    → Expires q (expire_from q now ids kept)
unfolding expire_from
expire_from-Expires q now [] kept f g = (q, kept, refl, Loop-refl q, g, refl)
expire_from-Expires q now (job_id ∷ rest) kept f g = elim (Option-cases (find_job q job_id)) [
  | inl e ↦ absurd (let x = f.0 in cc)
  | inr ((a, job), e) ↦ elim (Bool-cases (ltb 0 job.deadline_at && ltb job.deadline_at now)) [
    | inl late ↦
        let dead = move_to_dead_letter q a job "deadline exceeded" in
        let l =
          move_to_dead_letter-Loop q a job "deadline exceeded" (find_job-heap q job_id a job e) in
        let still = λ (ids : List String). Found-mono q dead ids (λ i. Loop-found q dead i l) in
        rw (expire_from, e, late)
          (Expires-after q dead _ l (move_to_dead_letter_busy q a job "deadline exceeded")
            (expire_from-Expires dead now rest kept (still rest f.1) (still kept g)))
    | inr timely ↦
        rw (expire_from, e, timely)
          (expire_from-Expires q now rest (kept ++ job_id ∷ []) f.1
            (Found-append q kept job_id g f.0))
  ]
]

-- A run of the second loop.
abbrev pub Requeues : JobQueue → Option (JobQueue × List String × List String) → Type 0
Requeues q o =
    (q' : JobQueue) × (waiting : List String) × (kept : List String) × (o
      ≡ some (q', waiting, kept))
    × Loop q q'
    × Found q' waiting

Requeues-after :
    (q mid : JobQueue) (o : Option (JobQueue × List String × List String))
    → Loop q mid
    → Requeues mid o
    → Requeues q o
Requeues-after q mid o l (q', waiting, kept, e, m, f) =
    (q', waiting, kept, e, Loop-trans q mid q' l m, f)

pub requeue_from-Requeues :
    (q : JobQueue) (now : ℕ) (ids waiting kept : List String)
    → Found q ids
    → Found q waiting
    → Requeues q (requeue_from q now ids waiting kept)
unfolding requeue_from
requeue_from-Requeues q now [] waiting kept f g = (q, waiting, kept, refl, Loop-refl q, g)
requeue_from-Requeues q now (job_id ∷ rest) waiting kept f g =
    elim (Option-cases (find_job q job_id)) [
      | inl e ↦ absurd (let x = f.0 in cc)
      | inr ((a, job), e) ↦ elim (Bool-cases (is_stuck job now)) [
        | inl stuck ↦
            let freed : Job = record job { status = pending; processed_by = "" } in
            let next = write_job q a freed in
            let l =
              Loop-write q a job freed (find_job-heap q job_id a job e)
                (record { same_id = refl; active = λ t. refl }) in
            let still = λ (ids : List String). Found-mono q next ids (λ i. Loop-found q next i l) in
            rw (requeue_from, e, stuck)
              (Requeues-after q next _ l (
                requeue_from-Requeues next now rest (waiting ++ job_id ∷ []) kept (still rest f.1) (
                  Found-append next waiting job_id (still waiting g)
                    (Loop-found q next job_id l f.0))))
        | inr timely ↦
            rw (requeue_from, e, timely)
              (requeue_from-Requeues q now rest waiting (kept ++ job_id ∷ []) f.1 g)
      ]
    ]

-- The sort after the loops.
pub sort_pending_jobs-Loop :
    (q : JobQueue) (waiting kept : List String)
    → Found q waiting
    → (q' : JobQueue) × (sort_pending_jobs
          (record q { pending_jobs = waiting; processing_jobs = kept })
        ≡ some q')
      × Loop q q'
unfolding sort_pending_jobs
sort_pending_jobs-Loop q waiting kept f =
    let mid : JobQueue = record q { pending_jobs = waiting; processing_jobs = kept } in
    let found = Found-all_found mid waiting (Found-mono q mid waiting (λ i h. h) f) in
    (
      record mid { pending_jobs = sort (job_before mid) waiting },
      ground (arith, found),
      record { keeps = Keeps-refl q.heap; index = refl; log = refl; age = refl },
    )
