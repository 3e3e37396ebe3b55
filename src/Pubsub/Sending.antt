-- ===== src/Pubsub/Sending.antt =====
-- Publish keeps a broker valid, and what it delivers (pubsub/pubsub.go).
use toll_mesh_store.Common.{
  ℕ, zero, suc, ◌+◌, ◌≡◌, ◌≢◌, ◌≤◌, inl, inr, refl, sym, ap, ◌∙◌, Bool, true, false, ◌&&◌, ◌==◌,
  ==_iff, ltb, if◌then◌else◌, String, Map, none, some, List, [], ◌∷◌, ◌++◌, length, length-append,
  length-drop, length-set, get_elem?, get_elem?-lt, set, get_elem?-set_self, get_elem?-set_ne,
  arith, Bool-cases, ℕ_discrete,
}
use toll_mesh_store.Pubsub.{
  Message, Subscriber, capacity, add_to_dead_letter_queue, Delivery, matches, send, deliver,
}
use toll_mesh_store.Pubsub.Valid.{IsOpen}

-- The subscriber after a message is sent to it: it has the message at the end of its channel, where
-- it wants it and has room.
unfoldable pub receive : String → Message → Subscriber → Subscriber
receive topic msg sub =
    if matches sub.regex topic && ltb (length sub.channel) capacity
    then record sub { channel = sub.channel ++ msg ∷ [] }
    else sub

-- The addresses of a topic's subscribers.
unfoldable pub addresses : Map ℕ → List ℕ
addresses [] = []
addresses ((id, a) ∷ rest) = a ∷ addresses rest

unfoldable pub among : ℕ → List ℕ → Bool
among a [] = false
among a (b ∷ rest) = if b == a then true else among a rest

abbrev pub Distinct : List ℕ → Type 0
Distinct [] = Unit
Distinct (a ∷ rest) = (among a rest ≡ false) × Distinct rest

-- Each address has an open subscriber.
abbrev pub Opened : List Subscriber → List ℕ → Type 0
Opened heap [] = Unit
Opened heap (a ∷ rest) = IsOpen heap a × Opened heap rest

-- How many of the subscribers get the message.
unfoldable pub receivers : String → List Subscriber → List ℕ → ℕ
receivers topic heap [] = 0
receivers topic heap (a ∷ rest) = elim (get_elem? heap a) [
  | none ↦ receivers topic heap rest
  | some sub ↦
      if matches sub.regex topic && ltb (length sub.channel) capacity
      then suc (receivers topic heap rest)
      else receivers topic heap rest
]

-- What a round of deliveries did to a heap and to the dead letters.
pub record Delivered (max : ℕ) (topic : String) (msg : Message) (addrs : List ℕ) (d d' : Delivery)
    : Type 0 where
  pub got :
      (a : ℕ) (sub : Subscriber)
      → get_elem? d.heap a ≡ some sub
      → get_elem? d'.heap a ≡ some (if among a addrs then receive topic msg sub else sub)
  pub size : length d'.heap ≡ length d.heap
  pub dead : length d.dead_letters ≤ max → length d'.dead_letters ≤ max
  pub counted : d'.count ≡ d.count + receivers topic d.heap addrs

set-same :
    (heap : List Subscriber) (a : ℕ) (sub : Subscriber)
    → get_elem? heap a ≡ some sub
    → set heap a sub ≡ heap
set-same [] a sub e = refl
set-same (s ∷ heap) zero sub e = let same : s ≡ sub = cc in rw same refl
set-same (s ∷ heap) (suc a) sub e = ap (λ rest. s ∷ rest) (set-same heap a sub e)

add_to_dead_letter_queue_bound :
    (max : ℕ) (dead : List Message) (msg : Message)
    → length dead ≤ max
    → length (add_to_dead_letter_queue max dead msg) ≤ max
unfolding add_to_dead_letter_queue
add_to_dead_letter_queue_bound max dead msg h =
    ground (arith, length-append dead (msg ∷ []), length-drop 1 (dead ++ msg ∷ []))

-- Whether a subscriber gets a message.
abbrev wants : String → Subscriber → Bool
wants topic sub = matches sub.regex topic && ltb (length sub.channel) capacity

-- A send to one open subscriber.
record Sent (max : ℕ) (topic : String) (msg : Message) (a : ℕ) (sub : Subscriber) (d d' : Delivery)
    : Type 0 where
  heap : d'.heap ≡ set d.heap a (receive topic msg sub)
  dead : length d.dead_letters ≤ max → length d'.dead_letters ≤ max
  counted : d'.count ≡ (if wants topic sub then d.count + 1 else d.count)

send-Sent :
    (max : ℕ) (topic : String) (msg : Message) (d : Delivery) (a : ℕ) (sub : Subscriber)
    → get_elem? d.heap a ≡ some sub
    → sub.closed ≡ false
    → (d' : Delivery) × (send max topic msg d a sub ≡ some d') × Sent max topic msg a sub d d'
unfolding send receive
send-Sent max topic msg d a sub e o =
    let stays = set-same d.heap a sub e in
    elim (Bool-cases (matches sub.regex topic)) [
      | inr other ↦ (
        d,
        rw other refl,
        record { heap = rw other (sym stays); dead = λ h. h; counted = rw other refl },
      )
      | inl wanted ↦ elim (Bool-cases (ltb (length sub.channel) capacity)) [
        | inl room ↦ (
          record d {
            heap = set d.heap a (record sub { channel = sub.channel ++ msg ∷ [] });
            count = d.count + 1;
          },
          rw (wanted, o, room) refl,
          record { heap = rw (wanted, room) refl; dead = λ h. h; counted = rw (wanted, room) refl },
        )
        | inr full ↦ (
          record d { dead_letters = add_to_dead_letter_queue max d.dead_letters msg },
          rw (wanted, o, full) refl,
          record {
            heap = rw (wanted, full) (sym stays);
            dead = add_to_dead_letter_queue_bound max d.dead_letters msg;
            counted = rw (wanted, full) refl;
          },
        )
      ]
    ]

receive-closed :
    (topic : String) (msg : Message) (sub : Subscriber)
    → (receive topic msg sub).closed ≡ sub.closed
unfolding receive
receive-closed topic msg sub = elim (Bool-cases (wants topic sub)) [
  | inl w ↦ rw w refl
  | inr n ↦ rw n refl
]

-- Writes to one subscriber do not matter to the others.
among-ne : (a b : ℕ) (rest : List ℕ) → among a (b ∷ rest) ≡ false → (b ≢ a) × (among a rest ≡ false)
unfolding among
among-ne a b rest h = (λ e. ground (arith, h, e), ground (arith, h))

Opened-set :
    (heap : List Subscriber) (a : ℕ) (new : Subscriber) (addrs : List ℕ)
    → among a addrs ≡ false
    → Opened heap addrs
    → Opened (set heap a new) addrs
Opened-set heap a new [] h o = tt
Opened-set heap a new (b ∷ rest) h o =
    let (n, m) = among-ne a b rest h in
    let (s, e, c) = o.0 in
    ((s, get_elem?-set_ne heap a b new (λ p. n (sym p)) ∙ e, c), Opened-set heap a new rest m o.1)

receivers-set :
    (topic : String) (heap : List Subscriber) (a : ℕ) (new : Subscriber) (addrs : List ℕ)
    → among a addrs ≡ false
    → receivers topic (set heap a new) addrs ≡ receivers topic heap addrs
unfolding receivers
receivers-set topic heap a new [] h = refl
receivers-set topic heap a new (b ∷ rest) h =
    let (n, m) = among-ne a b rest h in
    let same = get_elem?-set_ne heap a b new (λ p. n (sym p)) in
    let ih = receivers-set topic heap a new rest m in ground (arith, same, ih)

receivers-cons :
    (topic : String) (heap : List Subscriber) (a : ℕ) (sub : Subscriber) (rest : List ℕ) (n : ℕ)
    → get_elem? heap a ≡ some sub
    → (if wants topic sub then 1 else 0) ≡ n
    → receivers topic heap (a ∷ rest) ≡ n + receivers topic heap rest
unfolding receivers
receivers-cons topic heap a sub rest n e h = elim (Bool-cases (wants topic sub)) [
  | inl w ↦ let one : n ≡ 1 = sym h ∙ rw w refl in rw (receivers, e, w) (omega (arith, one))
  | inr off ↦ let one : n ≡ 0 = sym h ∙ rw off refl in rw (receivers, e, off) (omega (arith, one))
]

-- A round over open subscribers does not panic.
pub deliver-Delivered :
    (max : ℕ) (topic : String) (msg : Message) (subs : Map ℕ) (d : Delivery)
    → Opened d.heap (addresses subs)
    → Distinct (addresses subs)
    → (d' : Delivery) × (deliver max topic msg subs d ≡ some d')
      × Delivered max topic msg (addresses subs) d d'
unfolding deliver addresses among receivers
deliver-Delivered max topic msg [] d o u =
    (d, refl, record { got = λ a sub e. e; size = refl; dead = λ h. h; counted = omega arith })
deliver-Delivered max topic msg ((id, a) ∷ rest) d o u =
    let (sub, e, c) = o.0 in
    let (d1, e1, s) = send-Sent max topic msg d a sub e c in
    let new = receive topic msg sub in
    let opened : Opened d1.heap (addresses rest) =
      rw s.heap (Opened-set d.heap a new (addresses rest) u.0 o.1) in
    let (d2, e2, t) = deliver-Delivered max topic msg rest d1 opened u.1 in
    (
      d2,
      rw (deliver, e, e1) e2,
      record {
        got = λ b old f. elim (ℕ_discrete a b) [
          | yes p ↦
              let same : sub ≡ old = let x = ap (get_elem? d.heap) p in cc in
              let at : get_elem? d1.heap b ≡ some new =
                ap (λ heap. get_elem? heap b) s.heap
                ∙ ap (get_elem? (set d.heap a new)) (sym p)
                ∙ get_elem?-set_self d.heap a new (get_elem?-lt d.heap a sub e) in
              let off : among b (addresses rest) ≡ false =
                ap (λ x. among x (addresses rest)) (sym p) ∙ u.0 in
              t.got b new at
              ∙ rw (off, (==_iff a b).1 p) (ap (λ x. some (receive topic msg x)) same)
          | no n ↦
              let at : get_elem? d1.heap b ≡ some old =
                ap (λ heap. get_elem? heap b) s.heap ∙ get_elem?-set_ne d.heap a b new n ∙ f in
              let apart : (a == b) ≡ false = ground (arith, ==_iff a b) in
              t.got b old at ∙ rw apart refl
        ];
        size = t.size ∙ ap length s.heap ∙ length-set d.heap a new;
        dead = λ h. t.dead (s.dead h);
        counted =
            let fewer : receivers topic d1.heap (addresses rest)
                ≡ receivers topic d.heap (addresses rest) =
              ap (λ heap. receivers topic heap (addresses rest)) s.heap
              ∙ receivers-set topic d.heap a new (addresses rest) u.0 in
            elim (Bool-cases (wants topic sub)) [
              | inl w ↦
                  let one : d1.count ≡ d.count + 1 = s.counted ∙ rw w refl in
                  omega (
                    arith,
                    fewer,
                    one,
                    t.counted,
                    receivers-cons topic d.heap a sub (addresses rest) 1 e (rw w refl),
                  )
              | inr n ↦
                  let one : d1.count ≡ d.count = s.counted ∙ rw n refl in
                  omega (
                    arith,
                    fewer,
                    one,
                    t.counted,
                    receivers-cons topic d.heap a sub (addresses rest) 0 e (rw n refl),
                  )
            ];
      },
    )
