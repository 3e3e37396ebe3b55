-- ===== src/Stream/Groups/Members.antt =====
-- The members of a consumer group, their offsets and their entries that wait to be acknowledged
-- (stream/consumer_group.go).
use toll_mesh_store.Common.{
  ℕ, ◌-◌, ◌≡◌, refl, sym, ap, ◌∙◌, subst, Bool, true, false, ltb, if◌then◌else◌, String, str_eq,
  eq_iff, Map, lookup, insert, erase, lookup-insert, lookup-erase, is_some, Option, none, some,
  List, [], ◌∷◌, ◌++◌, arith, keep, Unique, Bool-cases, Option-cases, inl, inr,
}
use toll_mesh_store.Stream.Groups.{
  ConsumerGroup, ConsumerGroupMember, ConsumerGroupPending, add_consumer, remove_consumer,
  update_offset, heartbeat, add_pending, still_pending, dead_among, detect_dead_consumers,
}

-- The calls that write to a group, each with its reading of the clock.
pub data Call : Type 0 where
  call_add_consumer : String → String → ℕ → Call
  call_remove_consumer : String → ℕ → Call
  call_update_offset : String → String → ℕ → Call
  call_heartbeat : String → ℕ → Call
  call_add_pending : String → String → ℕ → Call

unfoldable pub step : ConsumerGroup → Call → ConsumerGroup
step cg (call_add_consumer c node now) = (add_consumer cg c node now).0
step cg (call_remove_consumer c now) = (remove_consumer cg c now).0
step cg (call_update_offset c e now) = (update_offset cg c e now).0
step cg (call_heartbeat c now) = (heartbeat cg c now).0
step cg (call_add_pending e c now) = add_pending cg e c now

unfoldable pub run : ConsumerGroup → List Call → ConsumerGroup
unfolding step
run cg [] = cg
run cg (c ∷ rest) = run (step cg c) rest

-- The two maps have the same keys.
abbrev pub Same : {V W : Type 0} → Map V → Map W → Type 0
Same m o = (c : String) → is_some (lookup c m) ≡ is_some (lookup c o)

module _ {V W : Type 0} (c : String) (m : Map V) (o : Map W) (h : Same m o) where
  insert-Same : (v : V) (w : W) → Same (insert c v m) (insert c w o)
  insert-Same v w = λ i. ground (arith, lookup-insert c i v m, lookup-insert c i w o, h i)

  insert-Same_known : (v : V) → is_some (lookup c o) ≡ true → Same (insert c v m) o
  insert-Same_known v k = λ i. ground (arith, lookup-insert c i v m, h i, k, eq_iff c i)

  erase-Same : Same (erase c m) (erase c o)
  erase-Same = λ i. ground (arith, lookup-erase c i m, lookup-erase c i o, h i)

-- A consumer has an offset exactly if it is a member.
abbrev pub SameKeys : ConsumerGroup → Type 0
SameKeys cg = Same cg.members cg.offsets

step-SameKeys : (cg : ConsumerGroup) (call : Call) → SameKeys cg → SameKeys (step cg call)
unfolding step add_consumer remove_consumer update_offset heartbeat add_pending
step-SameKeys cg (call_add_consumer c node now) h =
    elim (Bool-cases (is_some (lookup c cg.members))) [
      | inl known ↦ rw (step, add_consumer, known) h
      | inr unknown ↦ rw (step, add_consumer, unknown) (insert-Same c cg.members cg.offsets h _ "0")
    ]
step-SameKeys cg (call_remove_consumer c now) h =
    elim (Bool-cases (is_some (lookup c cg.members))) [
      | inl known ↦ rw (step, remove_consumer, known) (erase-Same c cg.members cg.offsets h)
      | inr unknown ↦ rw (step, remove_consumer, unknown) h
    ]
step-SameKeys cg (call_update_offset c e now) h = elim (Option-cases (lookup c cg.members)) [
  | inl unknown ↦ rw (step, update_offset, unknown) h
  | inr (m, known) ↦ rw (step, update_offset, known) (insert-Same c cg.members cg.offsets h _ e)
]
step-SameKeys cg (call_heartbeat c now) h = elim (Option-cases (lookup c cg.members)) [
  | inl unknown ↦ rw (step, heartbeat, unknown) h
  | inr (m, known) ↦
      rw (step, heartbeat, known)
        (insert-Same_known c cg.members cg.offsets h (record m { last_heartbeat = now })
          (sym (h c) ∙ ap is_some known))
]
step-SameKeys cg (call_add_pending e c now) h = h

-- After any calls on a new group a consumer has an offset exactly if it is a member, so that the
-- group never reads an offset of a consumer that left, nor misses that of one that is there.
pub run-SameKeys : (cg : ConsumerGroup) (calls : List Call) → SameKeys cg → SameKeys (run cg calls)
unfolding run
run-SameKeys cg [] h = h
run-SameKeys cg (c ∷ rest) h = run-SameKeys (step cg c) rest (step-SameKeys cg c h)

-- Whether the list names the consumer.
unfoldable pub listed : String → List String → Bool
listed c [] = false
listed c (d ∷ rest) = if str_eq d c then true else listed c rest

abbrev pub silent : ℕ → ℕ → Option ConsumerGroupMember → Bool
silent now timeout none = false
silent now timeout (some m) = ltb timeout (now - m.last_heartbeat)

dead_among_lem :
    (c : String) (timeout now : ℕ) (ms : Map ConsumerGroupMember)
    → Unique ms
    → listed c (dead_among now timeout ms) ≡ silent now timeout (lookup c ms)
unfolding listed dead_among lookup
dead_among_lem c timeout now [] u = refl
dead_among_lem c timeout now ((k, m) ∷ rest) u = elim (Bool-cases (str_eq k c)) [
  | inl hit ↦
      let absent : lookup c rest ≡ none =
        subst (λ i. lookup i rest ≡ none) ((eq_iff k c).0 hit) u.0 in
      ground (arith, dead_among_lem c timeout now rest u.1, hit, absent)
  | inr miss ↦ ground (arith, dead_among_lem c timeout now rest u.1, miss)
]

-- The consumers that a check reports are the members whose last heartbeat is longer ago than the
-- timeout. A map has a key once.
pub detect_dead_consumers_lem :
    (c : String) (cg : ConsumerGroup) (timeout now : ℕ)
    → Unique cg.members
    → listed c (detect_dead_consumers cg timeout now) ≡ silent now timeout (lookup c cg.members)
unfolding detect_dead_consumers
detect_dead_consumers_lem c cg timeout now u = dead_among_lem c timeout now cg.members u

still_pending-acknowledged :
    (c e : String) (t : ℕ) (log : List ConsumerGroupPending)
    → keep (still_pending c e) (log ++ record { entry_id = e; consumer_id = c; timestamp = t } ∷ [])
      ≡ keep (still_pending c e) log
unfolding keep still_pending
still_pending-acknowledged c e t [] = ground (arith, eq_iff e e, eq_iff c c)
still_pending-acknowledged c e t (p ∷ log) = ground (arith, still_pending-acknowledged c e t log)

-- An acknowledgement takes back the delivery: after it the entry waits for that consumer no more
-- than if it had not been handed out, and what waits otherwise waits still, in order.
pub update_offset-add_pending :
    (cg : ConsumerGroup) (c e : String) (t now : ℕ)
    → is_some (lookup c cg.members) ≡ true
    → (update_offset (add_pending cg e c t) c e now).0.pending_log
      ≡ (update_offset cg c e now).0.pending_log
unfolding update_offset add_pending
update_offset-add_pending cg c e t now known = elim (Option-cases (lookup c cg.members)) [
  | inl unknown ↦ absurd (ground (arith, unknown, known))
  | inr (m, found) ↦ rw (update_offset, found) (still_pending-acknowledged c e t cg.pending_log)
]
