-- ===== src/Stream/Groups/Assignment.antt =====
-- How the entries of a stream are shared out (RebalanceAssignment of stream/consumer_group.go).
use toll_mesh_store.Common.{
  ℕ, ◌<◌, ◌≡◌, ◌≢◌, refl, String, eq_iff, Map, lookup, insert, List, [], ◌∷◌, ◌++◌, arith, length,
  Perm, Bool-cases, str_eq, inl, inr, ◌⊎◌, is_some, true, false, sym, ◌∙◌, ◌==◌, lookup-insert,
}
use mathlib.Core.List.{append_assoc, append-nil, perm_middle}
use mathlib.Core.List.Perm
use toll_mesh_store.Stream.{StreamEntry}
use toll_mesh_store.Stream.Groups.{
  ConsumerGroup, ConsumerGroupMember, best_consumer, no_entries, distribute, rebalance_assignment,
  or_zero,
}

-- The entries that are assigned, of all the consumers.
unfoldable pub assigned : Map (List StreamEntry) → List StreamEntry
assigned [] = []
assigned ((k, es) ∷ rest) = es ++ assigned rest

assigned-insert :
    (k : String) (e : StreamEntry) (had : List StreamEntry) (m : Map (List StreamEntry))
    → had ≡ or_zero [] (lookup k m)
    → Perm (assigned (insert k (had ++ e ∷ []) m)) (e ∷ assigned m)
unfolding assigned insert lookup
assigned-insert k e had [] h = rw h Perm.rfl
assigned-insert k e had ((j, es) ∷ m) h = elim (Bool-cases (str_eq j k)) [
  | inl hit ↦
      let same : had ≡ es = h ∙ rw hit refl in
      rw (hit, same, append_assoc) (perm_middle es (assigned m))
  | inr miss ↦
      let later : had ≡ or_zero [] (lookup k m) = h ∙ rw miss refl in
      rw miss (
        Perm.trans (Perm.append_left es (assigned-insert k e had m later))
          (perm_middle es (assigned m)))
]

assigned-no_entries : (ms : Map ConsumerGroupMember) → assigned (no_entries ms) ≡ []
unfolding assigned no_entries
assigned-no_entries [] = refl
assigned-no_entries ((k, m) ∷ rest) = assigned-no_entries rest

-- Each consumer has a name and has been heard from.
abbrev pub AllNamed : Map ConsumerGroupMember → Type 0
AllNamed [] = Unit
AllNamed ((k, m) ∷ rest) = (k ≢ "") × (0 < m.last_heartbeat) × AllNamed rest

best_consumer-named :
    (cg : ConsumerGroup) (entry_id : String) (ms : Map ConsumerGroupMember) (best : String) (ts : ℕ)
    → AllNamed ms
    → best ≢ ""
    → best_consumer cg entry_id ms best ts ≢ ""
unfolding best_consumer
best_consumer-named cg entry_id [] best ts all h = h
best_consumer-named cg entry_id ((k, m) ∷ rest) best ts all h = ground (
  arith,
  best_consumer-named cg entry_id rest k m.last_heartbeat all.2,
  best_consumer-named cg entry_id rest best ts all.2 h,
  all.0,
)

best_consumer-chosen :
    (cg : ConsumerGroup) (entry_id : String) (ms : Map ConsumerGroupMember)
    → AllNamed ms
    → 0 < length ms
    → best_consumer cg entry_id ms "" 0 ≢ ""
unfolding best_consumer
best_consumer-chosen cg entry_id [] all h = ground arith
best_consumer-chosen cg entry_id ((k, m) ∷ rest) all h =
    ground
      (arith, best_consumer-named cg entry_id rest k m.last_heartbeat all.2 all.0, all.0, all.1)

distribute-assigned :
    (cg : ConsumerGroup) (entries : List StreamEntry) (a : Map (List StreamEntry))
    → AllNamed cg.members
    → 0 < length cg.members
    → Perm (assigned (distribute cg entries a)) (entries ++ assigned a)
unfolding distribute
distribute-assigned cg [] a all h = Perm.rfl
distribute-assigned cg (e ∷ rest) a all h =
    let best = best_consumer cg e.id cg.members "" 0 in
    let next = insert best (or_zero [] (lookup best a) ++ e ∷ []) a in
    let chosen : str_eq best "" ≡ false =
      ground (arith, best_consumer-chosen cg e.id cg.members all h, eq_iff best "") in
    rw (distribute, chosen)
      (Perm.trans (distribute-assigned cg rest next all h) (
        Perm.trans
          (Perm.append_left rest (assigned-insert best e (or_zero [] (lookup best a)) a refl))
          (perm_middle rest (assigned a))))

-- Whoever is chosen is a member, or the one that was the best before.
best_consumer-member :
    (cg : ConsumerGroup) (entry_id : String) (ms : Map ConsumerGroupMember) (best : String) (ts : ℕ)
    → (best_consumer cg entry_id ms best ts ≡ best)
      ⊎ (is_some (lookup (best_consumer cg entry_id ms best ts) ms) ≡ true)
unfolding best_consumer lookup
best_consumer-member cg entry_id [] best ts = inl refl
best_consumer-member cg entry_id ((k, m) ∷ rest) best ts = ground (
  arith,
  best_consumer-member cg entry_id rest k m.last_heartbeat,
  best_consumer-member cg entry_id rest best ts,
  eq_iff k k,
)

-- The keys of an assignment are members.
abbrev Members : ConsumerGroup → Map (List StreamEntry) → Type 0
Members cg a = (k : String) → is_some (lookup k a) ≡ true → is_some (lookup k cg.members) ≡ true

no_entries-Members :
    (ms : Map ConsumerGroupMember) (k : String)
    → is_some (lookup k (no_entries ms)) ≡ is_some (lookup k ms)
unfolding no_entries lookup
no_entries-Members [] k = refl
no_entries-Members ((j, m) ∷ rest) k = ground (arith, no_entries-Members rest k)

distribute-Members :
    (cg : ConsumerGroup) (entries : List StreamEntry) (a : Map (List StreamEntry))
    → Members cg a
    → Members cg (distribute cg entries a)
unfolding distribute
distribute-Members cg [] a known = known
distribute-Members cg (e ∷ rest) a known =
    let best = best_consumer cg e.id cg.members "" 0 in
    let new = or_zero [] (lookup best a) ++ e ∷ [] in
    let next = insert best new a in
    elim (Bool-cases (str_eq best "")) [
      | inl none_chosen ↦ rw (distribute, none_chosen) (distribute-Members cg rest a known)
      | inr chosen ↦
          rw (distribute, chosen)
            (distribute-Members cg rest next (λ k h. ground (
              arith,
              lookup-insert best k new a,
              known k,
              h,
              eq_iff best k,
              eq_iff best "",
              chosen,
              best_consumer-member cg e.id cg.members "" 0,
            )))
    ]

-- A rebalance hands out every entry once, where the group has a consumer and each has a name and a
-- heartbeat: what the consumers get, taken together, is a rearrangement of the entries. Only members
-- get any.
pub rebalance_assignment-assigned :
    (cg : ConsumerGroup) (entries : List StreamEntry)
    → AllNamed cg.members
    → 0 < length cg.members
    → Perm (assigned (rebalance_assignment cg entries)) entries
      × ((k : String)
          → is_some (lookup k (rebalance_assignment cg entries)) ≡ true
          → is_some (lookup k cg.members) ≡ true)
unfolding rebalance_assignment
rebalance_assignment-assigned cg entries all h =
    let a = no_entries cg.members in
    let some_member : (length cg.members == 0) ≡ false = ground (arith, h) in
    let whole = distribute-assigned cg entries a all h in
    rw (rebalance_assignment, some_member)
      (
        rw (assigned-no_entries cg.members, append-nil) at whole,
        distribute-Members cg entries a (λ k e. sym (no_entries-Members cg.members k) ∙ e),
      )
