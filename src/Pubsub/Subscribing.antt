-- ===== src/Pubsub/Subscribing.antt =====
-- Subscribe keeps a broker valid (pubsub/pubsub.go).
use toll_mesh_store.Common.{
  ℕ, ◌≡◌, ◌<◌, ◌⊎◌, inl, inr, refl, sym, ap, ◌∙◌, Bool, false, ltb, if◌then◌else◌, String, str_eq,
  eq_iff, Map, milli, insert, insert-Unique, lookup-insert, Option, some, List, [], ◌∷◌, ◌++◌,
  length, length-append, get_elem?, get_elem?-append, get_elem?-append_lt, get_elem?-lt, arith,
  Bool-cases,
}
use toll_mesh_store.Pubsub.{
  Subscriber, Topic, PubSubBroker, topic_of, put_topic, Outcome, panicked, done, Compiled, invalid,
  valid, compiled, subscribe,
}
use toll_mesh_store.Pubsub.Valid.{
  slot, IsOpen, Apart, IsBroker, topic_of-slot, topic_of-history, slot-insert, slot-same,
  history-insert, Apart-same,
}

-- A call that does not panic and leaves a valid broker.
abbrev pub Runs : {A : Type 0} → Outcome A → Type 0
Runs panicked = ⊥
Runs (done pb a) = IsBroker pb

IsOpen-append :
    (heap : List Subscriber) (sub : Subscriber) (a : ℕ)
    → IsOpen heap a
    → IsOpen (heap ++ sub ∷ []) a
IsOpen-append heap sub a (old, e, o) =
    (old, get_elem?-append_lt heap (sub ∷ []) a (get_elem?-lt heap a old e) ∙ e, o)

module _ (pb : PubSubBroker) (w : IsBroker pb) (topic : String) (id : String) (sub : Subscriber)
    (fresh : sub.closed ≡ false) (empty : sub.channel ≡ []) where
  t : Topic
  t = record (topic_of pb topic) {
    subscribers = insert id (length pb.heap) (topic_of pb topic).subscribers;
  }

  added : Map Topic
  added = insert topic t pb.topics

  added-slot :
      (topic' id' : String)
      → slot added topic' id' ≡ (
          if str_eq topic topic'
          then (if str_eq id id' then some (length pb.heap) else slot pb.topics topic' id')
          else slot pb.topics topic' id')
  unfolding added t
  added-slot topic' id' =
      slot-insert pb.topics topic t topic' id' ∙ elim (Bool-cases (str_eq topic topic')) [
        | inr miss ↦ rw miss refl
        | inl hit ↦ rw hit (
            lookup-insert id id' (length pb.heap) (topic_of pb topic).subscribers
            ∙ ap (λ o. if str_eq id id' then some (length pb.heap) else o)
                (topic_of-slot pb topic id'
                  ∙ ap (λ n. slot pb.topics n id') ((eq_iff topic topic').0 hit)))
      ]

  -- A subscription is the new one, or it was there.
  added-cases :
      (topic' id' : String) (a : ℕ)
      → slot added topic' id' ≡ some a
      → ((a ≡ length pb.heap) × (topic ≡ topic') × (id ≡ id'))
        ⊎ ((slot pb.topics topic' id' ≡ some a) × (a < length pb.heap))
  added-cases topic' id' a h = elim (Bool-cases (str_eq topic topic')) [
    | inr miss ↦ inr (old (sym (added-slot topic' id' ∙ rw miss refl) ∙ h))
    | inl hit ↦ elim (Bool-cases (str_eq id id')) [
      | inr other ↦ inr (old (sym (added-slot topic' id' ∙ rw (hit, other) refl) ∙ h))
      | inl self ↦
          let now : slot added topic' id' ≡ some (length pb.heap) =
            added-slot topic' id' ∙ rw (hit, self) refl in
          inl (cc, (eq_iff topic topic').0 hit, (eq_iff id id').0 self)
    ]
  ]
    where
      old :
          slot pb.topics topic' id' ≡ some a
          → (slot pb.topics topic' id' ≡ some a) × (a < length pb.heap)
      old e =
          let (s, f, o) = w.subscriptions.open_at topic' id' a e in (e, get_elem?-lt pb.heap a s f)

  added-Apart : Apart added (pb.heap ++ sub ∷ [])
  added-Apart = record {
    open_at = λ topic' id' a h. elim (added-cases topic' id' a h) [
      | inl (new, p, q) ↦
          (sub, ap (get_elem? (pb.heap ++ sub ∷ [])) new ∙ get_elem?-append pb.heap sub, fresh)
      | inr (e, l) ↦ IsOpen-append pb.heap sub a (w.subscriptions.open_at topic' id' a e)
    ];
    apart = λ topic' topic'' id' id'' a h k. elim (added-cases topic' id' a h) [
      | inl (new, p, q) ↦ elim (added-cases topic'' id'' a k) [
        | inl (new', p', q') ↦ (sym p ∙ p', sym q ∙ q')
        | inr (e', l') ↦ absurd (omega arith)
      ]
      | inr (e, l) ↦ elim (added-cases topic'' id'' a k) [
        | inl (new', p', q') ↦ absurd (omega arith)
        | inr (e', l') ↦ w.subscriptions.apart topic' topic'' id' id'' a e e'
      ]
    ];
  }

  added-IsBroker : IsBroker (record pb {
    topics = added;
    subscribers = insert id (length pb.heap) pb.subscribers;
    heap = pb.heap ++ sub ∷ [];
  })
  unfolding added t
  added-IsBroker =
      let (m, l, k) = topic_of-history pb topic w in
      record {
        subscriptions = added-Apart;
        known = λ i a h. elim (Bool-cases (str_eq id i)) [
          | inl hit ↦ ground (
            arith,
            lookup-insert id i (length pb.heap) pb.subscribers,
            length-append pb.heap (sub ∷ []),
            h,
            hit,
          )
          | inr miss ↦ ground (
            arith,
            lookup-insert id i (length pb.heap) pb.subscribers,
            length-append pb.heap (sub ∷ []),
            h,
            miss,
            w.known i a,
          )
        ];
        history =
            history-insert pb topic t w m l
              (insert-Unique id (length pb.heap) (topic_of pb topic).subscribers k);
        room = λ a s h. elim (Bool-cases (ltb a (length pb.heap))) [
          | inl lt ↦
              let old = get_elem?-append_lt pb.heap (sub ∷ []) a (ground arith) in
              w.room a s (sym old ∙ h)
          | inr ge ↦
              let inside = get_elem?-lt (pb.heap ++ sub ∷ []) a s h in
              let last : length pb.heap ≡ a =
                ground (arith, length-append pb.heap (sub ∷ []), inside, ge) in
              let at : get_elem? (pb.heap ++ sub ∷ []) a ≡ some sub =
                ap (get_elem? (pb.heap ++ sub ∷ [])) (sym last) ∙ get_elem?-append pb.heap sub in
              let same : sub ≡ s = cc in rw (← same, empty) (omega arith)
        ];
        dead = w.dead;
      }

-- A topic that a failed subscription leaves behind.
put_topic-IsBroker :
    (pb : PubSubBroker) (topic : String)
    → IsBroker pb
    → IsBroker (put_topic pb topic (topic_of pb topic))
put_topic-IsBroker pb topic w =
    let t = topic_of pb topic in
    let (m, l, k) = topic_of-history pb topic w in
    record {
      subscriptions =
          Apart-same pb.topics (insert topic t pb.topics) pb.heap pb.heap w.subscriptions
            (λ n i. slot-same pb topic t n i refl) (λ a o. o);
      known = w.known;
      history = history-insert pb topic t w m l k;
      room = w.room;
      dead = w.dead;
    }

pub subscribe-Runs :
    (compile : String → Option (String → Bool)) (pb : PubSubBroker) (id topic pattern : String)
    (now : ℕ)
    → IsBroker pb
    → Runs (subscribe compile pb id topic pattern now)
unfolding subscribe added t
subscribe-Runs compile pb id topic pattern now w = from (compiled compile pattern) refl
  where
    from :
        (c : Compiled)
        → compiled compile pattern ≡ c
        → Runs (subscribe compile pb id topic pattern now)
    from invalid e = rw (subscribe, e) (put_topic-IsBroker pb topic w)
    from (valid regex) e =
        rw (subscribe, e)
          (added-IsBroker pb w topic id
            (record {
              id = id;
              channel = [];
              closed = false;
              pattern = pattern;
              regex = regex;
              created = milli now;
            })
            refl refl)
