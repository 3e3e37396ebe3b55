-- ===== src/Manager/Eviction.antt =====
-- What the cleanup drops from a queue (cleanupExpiredJobs of queue/job_manager.go).
use toll_mesh_store.Common.{
  ℕ, ◌≡◌, ◌⊎◌, refl, subst, ◌∙◌, inl, inr, true, false, String, str_eq, eq_iff, Map, lookup, erase,
  lookup-erase, none, some, List, [], ◌∷◌, get_elem?, arith, Bool-cases, Option-cases,
}
use toll_mesh_store.Queue.{Job}
use toll_mesh_store.Manager.Cleanup.{is_outdated, evict_from}

-- An address of the log.
pub data Listed (a : ℕ) : List ℕ → Type 0 where
  here : {rest : List ℕ} → Listed a (a ∷ rest)
  there : {b : ℕ} {rest : List ℕ} → Listed a rest → Listed a (b ∷ rest)

abbrev pub ListedIn : ℕ → List ℕ → Type 0
ListedIn a [] = ⊥
ListedIn a (b ∷ rest) = (a ≡ b) ⊎ Listed a rest

pub Listed-cases : (a : ℕ) {addrs : List ℕ} → Listed a addrs → ListedIn a addrs
Listed-cases a here = inl refl
Listed-cases a (there l) = inr l

-- An id that an eviction drops from the index is that of a job of the log that is outdated.
pub evict_from-lookup :
    (heap : List Job) (max_age now : ℕ) (addrs : List ℕ) (index : Map ℕ) (job_id : String)
    → (lookup job_id (evict_from heap max_age now addrs index).1 ≡ lookup job_id index)
      ⊎ ((a : ℕ) × (job : Job) × Listed a addrs
          × (get_elem? heap a ≡ some job)
          × (job.id ≡ job_id)
          × (is_outdated job max_age now ≡ true))
unfolding evict_from
evict_from-lookup heap max_age now [] index job_id = inl refl
evict_from-lookup heap max_age now (a ∷ rest) index job_id =
    elim (Option-cases (get_elem? heap a)) [
      | inl e ↦ elim (evict_from-lookup heap max_age now rest index job_id) [
        | inl same ↦ inl (rw (evict_from, e) same)
        | inr (b, job, l, f, i, o) ↦ inr (b, job, there l, f, i, o)
      ]
      | inr (job, e) ↦ elim (Bool-cases (is_outdated job max_age now)) [
        | inr young ↦ elim (evict_from-lookup heap max_age now rest index job_id) [
          | inl same ↦ inl (rw (evict_from, e, young) same)
          | inr (b, other, l, f, i, o) ↦ inr (b, other, there l, f, i, o)
        ]
        | inl old ↦ elim (Bool-cases (str_eq job.id job_id)) [
          | inl hit ↦ inr (a, job, here, e, (eq_iff job.id job_id).0 hit, old)
          | inr miss ↦ elim (evict_from-lookup heap max_age now rest (erase job.id index) job_id) [
            | inl same ↦
                inl
                  (rw (evict_from, e, old) (same ∙ lookup-erase job.id job_id index ∙ rw miss refl))
            | inr (b, other, l, f, i, o) ↦ inr (b, other, there l, f, i, o)
          ]
        ]
      ]
    ]

erased-stays :
    (heap : List Job) (max_age now : ℕ) (addrs : List ℕ) (index : Map ℕ) (job_id : String)
    → lookup job_id index ≡ none
    → lookup job_id (evict_from heap max_age now addrs index).1 ≡ none
unfolding evict_from
erased-stays heap max_age now [] index job_id h = h
erased-stays heap max_age now (a ∷ rest) index job_id h = elim (Option-cases (get_elem? heap a)) [
  | inl e ↦ rw (evict_from, e) (erased-stays heap max_age now rest index job_id h)
  | inr (job, e) ↦ elim (Bool-cases (is_outdated job max_age now)) [
    | inr young ↦ rw (evict_from, e, young) (erased-stays heap max_age now rest index job_id h)
    | inl old ↦
        rw (evict_from, e, old)
          (erased-stays heap max_age now rest (erase job.id index) job_id
            (ground (arith, lookup-erase job.id job_id index, h)))
  ]
]

-- The id of an outdated job of the log is dropped, whatever the index has under it.
pub evict_from-erases :
    (a : ℕ) (job : Job) (heap : List Job) (max_age now : ℕ) (index : Map ℕ) {addrs : List ℕ}
    → Listed a addrs
    → get_elem? heap a ≡ some job
    → is_outdated job max_age now ≡ true
    → lookup job.id (evict_from heap max_age now addrs index).1 ≡ none
unfolding evict_from
evict_from-erases a job heap max_age now index (here {rest = rest}) e old =
    rw (evict_from, e, old)
      (erased-stays heap max_age now rest (erase job.id index) job.id
        (ground (arith, lookup-erase job.id job.id index, eq_iff job.id job.id)))
evict_from-erases a job heap max_age now index (there {b = b} {rest = rest} l) e old =
    elim (Option-cases (get_elem? heap b)) [
      | inl f ↦ rw (evict_from, f) (evict_from-erases a job heap max_age now index l e old)
      | inr (other, f) ↦ elim (Bool-cases (is_outdated other max_age now)) [
        | inr young ↦
            rw (evict_from, f, young) (evict_from-erases a job heap max_age now index l e old)
        | inl gone ↦
            rw (evict_from, f, gone)
              (evict_from-erases a job heap max_age now (erase other.id index) l e old)
      ]
    ]

-- The log of a cleanup has no outdated job left.
abbrev pub NoneOutdated : List Job → ℕ → ℕ → List ℕ → Type 0
NoneOutdated heap max_age now [] = Unit
NoneOutdated heap max_age now (a ∷ rest) =
    ((job : Job) → get_elem? heap a ≡ some job → is_outdated job max_age now ≡ false)
    × NoneOutdated heap max_age now rest

pub evict_from-NoneOutdated :
    (heap : List Job) (max_age now : ℕ) (addrs : List ℕ) (index : Map ℕ)
    → NoneOutdated heap max_age now (evict_from heap max_age now addrs index).0
unfolding evict_from
evict_from-NoneOutdated heap max_age now [] index = tt
evict_from-NoneOutdated heap max_age now (a ∷ rest) index = elim (Option-cases (get_elem? heap a)) [
  | inl e ↦ rw (evict_from, e) (evict_from-NoneOutdated heap max_age now rest index)
  | inr (job, e) ↦ elim (Bool-cases (is_outdated job max_age now)) [
    | inl old ↦
        rw (evict_from, e, old) (evict_from-NoneOutdated heap max_age now rest (erase job.id index))
    | inr young ↦
        rw (evict_from, e, young)
          (
            λ other f.
                let same : job ≡ other = cc in
                subst (λ j. is_outdated j max_age now ≡ false) same young,
            evict_from-NoneOutdated heap max_age now rest index,
          )
  ]
]
