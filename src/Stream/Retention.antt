-- ===== src/Stream/Retention.antt =====
-- What the retention leaves of a stream (applyRetention of stream/entry.go).
use toll_mesh_store.Common.{
  ℕ, zero, suc, ◌+◌, ◌-◌, ◌≤◌, ◌≡◌, refl, ap, subst, ◌∙◌, ltb, List, [], ◌∷◌, arith, length, drop,
  length-drop, if◌then◌else◌,
}
use toll_mesh_store.Stream.{
  StreamEntry, Stream, RetentionPolicy, entry_size, total_size, young, within_size, drop_old,
  drop_excess, drop_oversize, apply_retention,
}

-- Every entry is at most so old.
abbrev pub AllYoung : ℕ → ℕ → List StreamEntry → Type 0
AllYoung now max_age [] = Unit
AllYoung now max_age (e ∷ rest) = (now - e.timestamp ≤ max_age) × AllYoung now max_age rest

young-AllYoung :
    (now max_age : ℕ) (es : List StreamEntry) → AllYoung now max_age (young now max_age es)
unfolding young
young-AllYoung now max_age [] = tt
young-AllYoung now max_age (e ∷ rest) = ground (arith, young-AllYoung now max_age rest)

drop-AllYoung :
    (now max_age k : ℕ) (es : List StreamEntry)
    → AllYoung now max_age es
    → AllYoung now max_age (drop k es)
drop-AllYoung now max_age zero es y = y
drop-AllYoung now max_age (suc k) [] y = tt
drop-AllYoung now max_age (suc k) (e ∷ rest) y = drop-AllYoung now max_age k rest y.1

within_size-total :
    (max_size size : ℕ) (es : List StreamEntry)
    → size ≡ total_size es
    → total_size (within_size max_size size es) ≤ max_size
unfolding total_size within_size
within_size-total max_size size [] h = omega arith
within_size-total max_size size (e ∷ rest) h =
    ground (arith, within_size-total max_size (size - entry_size e) rest (omega arith))

-- How many entries the last loop removes.
pub removed : ℕ → ℕ → List StreamEntry → ℕ
removed max_size size [] = 0
removed max_size size (e ∷ rest) =
    let n = removed max_size (size - entry_size e) rest in if ltb max_size size then suc n else 0

pub within_size-drop :
    (max_size size : ℕ) (es : List StreamEntry)
    → within_size max_size size es ≡ drop (removed max_size size es) es
unfolding within_size removed
within_size-drop max_size size [] = refl
within_size-drop max_size size (e ∷ rest) =
    ground (arith, within_size-drop max_size (size - entry_size e) rest)

-- What the count limit removes.
pub excess : ℕ → List StreamEntry → ℕ
excess max_entries es = length es - max_entries

pub drop_excess-entries :
    (s : Stream)
    → (drop_excess s).entries ≡ drop (excess s.retention_policy.max_entries s.entries) s.entries
unfolding drop_excess excess
drop_excess-entries s = ground arith

-- The policy that a stream has: the retention does not change it.
drop_old-policy : (now : ℕ) (s : Stream) → (drop_old now s).retention_policy ≡ s.retention_policy
unfolding drop_old
drop_old-policy now s = refl

drop_excess-policy : (s : Stream) → (drop_excess s).retention_policy ≡ s.retention_policy
unfolding drop_excess
drop_excess-policy s = ground arith

-- What a stream's entries keep to.
pub record Within (now : ℕ) (p : RetentionPolicy) (es : List StreamEntry) : Type 0 where
  pub age : AllYoung now p.max_age es
  pub count : length es ≤ p.max_entries
  pub size : total_size es ≤ p.max_size

drop_excess-count : (s : Stream) → length (drop_excess s).entries ≤ s.retention_policy.max_entries
unfolding excess
drop_excess-count s = ground (
  arith,
  drop_excess-entries s,
  length-drop (excess s.retention_policy.max_entries s.entries) s.entries,
)

drop_oversize-Within :
    (now : ℕ) (s : Stream)
    → AllYoung now s.retention_policy.max_age s.entries
    → length s.entries ≤ s.retention_policy.max_entries
    → Within now s.retention_policy (drop_oversize s).entries
unfolding drop_oversize
drop_oversize-Within now s young few =
    let max_size = s.retention_policy.max_size in
    let n = removed max_size (total_size s.entries) s.entries in
    let cut = within_size-drop max_size (total_size s.entries) s.entries in
    record {
      age = rw cut (drop-AllYoung now s.retention_policy.max_age n s.entries young);
      count = ground (arith, cut, length-drop n s.entries, few);
      size = within_size-total max_size (total_size s.entries) s.entries refl;
    }

drop-nil : (n : ℕ) → ◌≡◌ {A = List StreamEntry} [] (drop n [])
drop-nil zero = refl
drop-nil (suc n) = refl

drop-drop : (n m : ℕ) (es : List StreamEntry) → drop n (drop m es) ≡ drop (m + n) es
drop-drop n zero es = let h : n ≡ 0 + n = omega arith in ap (λ k. drop k es) h
drop-drop zero (suc m) [] = drop-nil (suc m + 0)
drop-drop (suc n) (suc m) [] = drop-nil (suc m + suc n)
drop-drop n (suc m) (e ∷ rest) =
    let h : suc (m + n) ≡ suc m + n = omega arith in
    drop-drop n m rest ∙ ap (λ k. drop k (e ∷ rest)) h

-- How many of the young entries the two limits remove.
pub cut : ℕ → Stream → ℕ
cut now s =
    let p = s.retention_policy in
    let m = excess p.max_entries (young now p.max_age s.entries) in
    let left = drop m (young now p.max_age s.entries) in
    m + removed p.max_size (total_size left) left

pub apply_retention-entries :
    (now : ℕ) (s : Stream)
    → (apply_retention now s).entries
      ≡ drop (cut now s) (young now s.retention_policy.max_age s.entries)
unfolding apply_retention cut drop_oversize drop_old
apply_retention-entries now s =
    let p = s.retention_policy in
    let m = excess p.max_entries (young now p.max_age s.entries) in
    let left = drop m (young now p.max_age s.entries) in
    ground (
      arith,
      drop_excess-entries (drop_old now s),
      drop_excess-policy (drop_old now s),
      within_size-drop p.max_size (total_size left) left,
      drop-drop (removed p.max_size (total_size left) left) m (young now p.max_age s.entries),
    )

apply_retention-Within :
    (now : ℕ) (s : Stream) → Within now s.retention_policy (apply_retention now s).entries
unfolding apply_retention drop_old
apply_retention-Within now s =
    let max_age = s.retention_policy.max_age in
    let old = drop_old now s in
    subst (λ p. Within now p (apply_retention now s).entries) (drop_excess-policy old)
      (drop_oversize-Within now (drop_excess old)
        (rw (drop_excess-policy old, drop_excess-entries old)
          (drop-AllYoung now max_age (excess old.retention_policy.max_entries old.entries)
            old.entries (young-AllYoung now max_age s.entries)))
        (rw (drop_excess-policy old) (drop_excess-count old)))

-- The retention leaves no entry over the age limit, at most as many entries and as many bytes as
-- the policy says, and what it leaves is the last of the entries that are young enough, in the
-- order they had.
pub apply_retention_lem :
    (now : ℕ) (s : Stream)
    → Within now s.retention_policy (apply_retention now s).entries
      × ((apply_retention now s).entries
          ≡ drop (cut now s) (young now s.retention_policy.max_age s.entries))
apply_retention_lem now s = (apply_retention-Within now s, apply_retention-entries now s)
