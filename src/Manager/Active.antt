-- ===== src/Manager/Active.antt =====
-- Jobs that have not ended outlive a cleanup (cleanupExpiredJobs of queue/job_manager.go).
use toll_mesh_store.Common.{
  ℕ, ◌≡◌, ◌<◌, refl, sym, ap, subst, ◌∙◌, inl, inr, true, false, ltb, String, lookup, some, [],
  get_elem?, milli, arith, Bool-cases, Option-cases,
}
use toll_mesh_store.Queue.{Job, JobQueue, find_job, all_found}
use toll_mesh_store.Queue.Claims.{find_job-heap}
use toll_mesh_store.Manager.Eviction.{
  Listed, evict_from-lookup, NoneOutdated, evict_from-NoneOutdated,
}
use toll_mesh_store.Queue.Found.{Found-mono, all_found-Found}
use toll_mesh_store.Manager.Loops.{
  Loop, Loop-trans, Loop-found, expire_from-Expires, requeue_from-Requeues, sort_pending_jobs-Loop,
}
use toll_mesh_store.Manager.Cleanup.{
  is_terminal, is_outdated, evict_from, evict, evicted, requeued, expired, cleanup_queue,
}

-- A job of the log is the one that the index has under its id.
abbrev pub Agrees : JobQueue → Type 0
Agrees q =
    (a : ℕ) (job : Job)
    → Listed a q.jobs
    → get_elem? q.heap a ≡ some job
    → lookup job.id q.job_index ≡ some a

-- What a cleanup leaves: every job that had not ended, under its id at its address, and no job in
-- the log that has ended too long ago.
abbrev pub Cleaned : JobQueue → ℕ → JobQueue → Type 0
Cleaned q now q' =
    ((job_id : String) (a : ℕ) (old : Job)
      → find_job q job_id ≡ some (a, old)
      → is_terminal old.status ≡ false
      → (job : Job) × (find_job q' job_id ≡ some (a, job)) × (is_terminal job.status ≡ false))
    × (0 < q.max_age → NoneOutdated q'.heap (milli q.max_age) now q'.jobs)

terminal_of :
    (job : Job) (max_age now : ℕ)
    → is_outdated job max_age now ≡ true
    → is_terminal job.status ≡ true
terminal_of job max_age now h = ground (arith, h)

some_inj : {A : Type 0} (a b : A) → some a ≡ some b → a ≡ b
some_inj a b h = cc

-- An outdated job is not at the address of one that has not ended.
not_evicted :
    (q mid : JobQueue) (a b : ℕ) (old was gone : Job) (job_id : String)
    → Agrees q
    → Loop q mid
    → get_elem? q.heap a ≡ some old
    → lookup job_id q.job_index ≡ some a
    → is_terminal old.status ≡ false
    → Listed b mid.jobs
    → get_elem? mid.heap b ≡ some gone
    → gone.id ≡ job_id
    → get_elem? q.heap b ≡ some was
    → is_terminal gone.status ≡ false
not_evicted q mid a b old was gone job_id agrees l h found busy listed e named w =
    let (job, f, t) = l.keeps.forward b was w in
    let same : job ≡ gone = some_inj job gone (sym f ∙ e) in
    let id : was.id ≡ job_id = sym t.same_id ∙ ap (λ (j : Job). j.id) same ∙ named in
    let there = agrees b was (subst (Listed b) l.log listed) w in
    let at : b ≡ a = some_inj b a (sym there ∙ ap (λ i. lookup i q.job_index) id ∙ found) in
    let one : was ≡ old = some_inj was old (sym w ∙ ap (get_elem? q.heap) at ∙ h) in
    ap (λ (j : Job). is_terminal j.status) (sym same)
    ∙ t.active (ap (λ (j : Job). is_terminal j.status) one ∙ busy)

-- The index after an eviction, under an id whose job has not ended.
evicted-active :
    (q mid : JobQueue) (now a : ℕ) (old : Job) (job_id : String)
    → Agrees q
    → Loop q mid
    → get_elem? q.heap a ≡ some old
    → lookup job_id q.job_index ≡ some a
    → is_terminal old.status ≡ false
    → lookup job_id (evict_from mid.heap (milli mid.max_age) now mid.jobs mid.job_index).1 ≡ some a
evicted-active q mid now a old job_id agrees l h found busy =
    elim (evict_from-lookup mid.heap (milli mid.max_age) now mid.jobs mid.job_index job_id) [
      | inl same ↦ same ∙ ap (lookup job_id) l.index ∙ found
      | inr (b, gone, listed, e, named, outdated) ↦ elim (Option-cases (get_elem? q.heap b)) [
        | inl none_there ↦ absurd (let x = l.keeps.gone b none_there in cc)
        | inr (was, w) ↦
            let u =
              not_evicted q mid a b old was gone job_id agrees l h found busy listed e named w in
            let v = terminal_of gone (milli mid.max_age) now outdated in absurd (cc)
      ]
    ]

find_job-index :
    (q : JobQueue) (job_id : String) (a : ℕ) (job : Job)
    → find_job q job_id ≡ some (a, job)
    → lookup job_id q.job_index ≡ some a
unfolding find_job
find_job-index q job_id a job h = ground (arith, h)

find_job-at :
    (q : JobQueue) (job_id : String) (a : ℕ) (job : Job)
    → lookup job_id q.job_index ≡ some a
    → get_elem? q.heap a ≡ some job
    → find_job q job_id ≡ some (a, job)
unfolding find_job
find_job-at q job_id a job h k = rw (find_job, h, k) refl

-- An eviction after the loops.
evict-Cleaned : (q mid : JobQueue) (now : ℕ) → Agrees q → Loop q mid → Cleaned q now (evict mid now)
unfolding evict
evict-Cleaned q mid now agrees l = elim (Bool-cases (ltb 0 mid.max_age)) [
  | inl ages ↦ rw ages (
    λ job_id a old e busy.
        let h = find_job-heap q job_id a old e in
        let found = find_job-index q job_id a old e in
        let (job, f, t) = l.keeps.forward a old h in
        (
          job,
          find_job-at _ job_id a job (evicted-active q mid now a old job_id agrees l h found busy)
              f,
          t.active busy,
        ),
    λ positive.
        rw (← l.age)
          (evict_from-NoneOutdated mid.heap (milli mid.max_age) now mid.jobs mid.job_index),
  )
  | inr ageless ↦ rw ageless (
    λ job_id a old e busy.
        let found = find_job-index q job_id a old e in
        let (job, f, t) = l.keeps.forward a old (find_job-heap q job_id a old e) in
        (job, find_job-at mid job_id a job (ap (lookup job_id) l.index ∙ found) f, t.active busy),
    λ positive. absurd (let age = l.age in ground arith),
  )
]

-- Where the log and the index agree and the index has every pending and every processing job, a
-- cleanup does not panic. It keeps every job that has not ended, under its id; and where the queue
-- has a maximal age, it leaves no job in the log that ended longer ago.
pub cleanup_queue_lem :
    (q : JobQueue) (now : ℕ)
    → Agrees q
    → all_found q q.pending_jobs ≡ true
    → all_found q q.processing_jobs ≡ true
    → (q' : JobQueue) × (cleanup_queue q now ≡ some q') × Cleaned q now q'
unfolding cleanup_queue
cleanup_queue_lem q now agrees waits busy =
    let (q1, kept, e1, l1, f1, same) =
      expire_from-Expires q now q.pending_jobs [] (all_found-Found q q.pending_jobs waits) tt in
    let (q2, waiting, left, e2, l2, f2) =
      requeue_from-Requeues q1 now q1.processing_jobs kept []
        (rw same (
          Found-mono q q1 q.processing_jobs (λ i. Loop-found q q1 i l1)
            (all_found-Found q q.processing_jobs busy)))
        f1 in
    let (q3, e3, l3) = sort_pending_jobs-Loop q2 waiting left f2 in
    (
      evict q3 now,
      ap (expired now) e1 ∙ ap (requeued now) e2 ∙ ap (evicted now) e3,
      evict-Cleaned q q3 now agrees (Loop-trans q q1 q3 l1 (Loop-trans q1 q2 q3 l2 l3)),
    )
