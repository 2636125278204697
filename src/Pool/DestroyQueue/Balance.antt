-- ===== src/Pool/DestroyQueue/Balance.antt =====
-- The wait group and the queue bound of the destroy path of internal/pool/manager.go, over any
-- interleaving of enqueues, receives, dispatches, ends of workers and a drain.
use actions_runner_scaleset.Prelude.{
  ℕ, ◌+◌, suc, ap, ◌⊎◌, ◌≡◌, ◌≤◌, ◌<◌, refl, Bool, true, false, Option, none, some, List, [], ◌∷◌,
  length, length-append, arith, ltb, Bool-cases, Option-cases, inl, inr,
}
use actions_runner_scaleset.Pool.DestroyQueue.{
  DestroyRequest, DestroyQueue, destroy_queue_cap, max_concurrent_destroys, destroy_async,
  drain_destroy_queue, receive, has_slot, dispatch, cancel, worker_done, rollback_acquires,
  rollback_done, begin_drain,
}

-- One event: the dispatcher acts while it has not stopped, and a worker ends only if one runs.
pub data Step (q : DestroyQueue) : DestroyQueue → Type 0 where
  enqueues : (r : DestroyRequest) → Step q (destroy_async q r)
  receives : q.stopped ≡ false → Step q (receive q)
  dispatches : (acquired : Bool) → q.stopped ≡ false → Step q (dispatch q acquired)
  cancels : q.stopped ≡ false → Step q (cancel q)
  ends : 0 < q.active → Step q (worker_done q)
  rolls : Step q (rollback_acquires q)
  rolled : 0 < q.rollbacks → Step q (rollback_done q)
  drains : Step q (begin_drain q)

pub data Run (q : DestroyQueue) : DestroyQueue → Type 0 where
  here : Run q q
  next : {u w : DestroyQueue} → Run q u → Step u w → Run q w

abbrev pub initial : DestroyQueue
initial = record {
  requests = [];
  held = none;
  active = 0;
  rollbacks = 0;
  waits = 0;
  draining = false;
  stopped = false;
}

-- How many requests the dispatcher holds.
abbrev pub held_count : Option DestroyRequest → ℕ
held_count none = 0
held_count (some r) = 1

pub record IsBalanced (q : DestroyQueue) : Type 0 where
  pub counted : q.waits ≡ length q.requests + held_count q.held + q.active
  pub bounded : length q.requests ≤ destroy_queue_cap
  pub slots : q.active + q.rollbacks ≤ max_concurrent_destroys

-- What a step of a balanced queue keeps: the balance, a drain that has begun, and then the bound that
-- the wait group has.
abbrev Keeps : DestroyQueue → DestroyQueue → Type 0
Keeps q u = IsBalanced u × (q.draining ≡ true → (u.draining ≡ true) × (u.waits ≤ q.waits))

stays : (q : DestroyQueue) → IsBalanced q → Keeps q q
stays q h = (h, λ d. (d, omega arith))

-- The queue is empty, or it has a first request.
requests_cases :
    (rs : List DestroyRequest)
    → (rs ≡ []) ⊎ ((r : DestroyRequest) × (rest : List DestroyRequest) × (rs ≡ r ∷ rest))
requests_cases [] = inl refl
requests_cases (r ∷ rest) = inr (r, rest, refl)

destroy_async-Keeps :
    (q : DestroyQueue) (r : DestroyRequest) → IsBalanced q → Keeps q (destroy_async q r)
unfolding destroy_async
destroy_async-Keeps q r h = elim (Bool-cases q.draining) [
  | inl d ↦
      rw (destroy_async, d)
        (
          record { counted = omega (arith, h.counted); bounded = h.bounded; slots = h.slots },
          λ d. (refl, omega arith),
        )
  | inr d ↦ elim (Bool-cases (ltb (length q.requests) destroy_queue_cap)) [
    | inl e ↦
        rw (destroy_async, d, e)
          (
            record {
              counted = omega (arith, h.counted, length-append q.requests (r ∷ []));
              bounded = ground (arith, length-append q.requests (r ∷ []));
              slots = h.slots;
            },
            λ b. absurd (cc (b, d)),
          )
    | inr e ↦
        rw (destroy_async, d, e)
          (
            record { counted = omega (arith, h.counted); bounded = h.bounded; slots = h.slots },
            λ b. absurd (cc (b, d)),
          )
  ]
]

receive-Keeps : (q : DestroyQueue) → IsBalanced q → Keeps q (receive q)
unfolding receive
receive-Keeps q h = elim (Option-cases q.held) [
  | inr (r, e) ↦
      let one : held_count q.held ≡ 1 = ap held_count e in
      rw (receive, e)
        (
          record { counted = omega (arith, h.counted, one); bounded = h.bounded; slots = h.slots },
          λ d. (d, omega arith),
        )
  | inl n ↦
      let free : held_count q.held ≡ 0 = ap held_count n in
      elim (requests_cases q.requests) [
        | inl e ↦
            let no_more : length q.requests ≡ 0 = ap length e in
            rw (receive, n, e)
              (
                record {
                  counted = omega (arith, h.counted, free, no_more);
                  bounded = omega arith;
                  slots = h.slots;
                },
                λ d. (d, omega arith),
              )
        | inr (r, rest, e) ↦
            let more : length q.requests ≡ suc (length rest) = ap length e in
            rw (receive, n, e)
              (
                record {
                  counted = omega (arith, h.counted, more, free);
                  bounded = omega (arith, h.bounded, more);
                  slots = h.slots;
                },
                λ d. (d, omega arith),
              )
      ]
]

dispatch-Keeps : (q : DestroyQueue) (acquired : Bool) → IsBalanced q → Keeps q (dispatch q acquired)
unfolding dispatch drain_destroy_queue
dispatch-Keeps q acquired h = elim (Option-cases q.held) [
  | inl n ↦
      let free : held_count q.held ≡ 0 = ap held_count n in
      rw (dispatch, n)
        (
          record { counted = omega (arith, h.counted, free); bounded = h.bounded; slots = h.slots },
          λ d. (d, omega arith),
        )
  | inr (r, e) ↦
      let one : held_count q.held ≡ 1 = ap held_count e in
      elim (Bool-cases acquired) [
        | inl a ↦ elim (Bool-cases (has_slot q)) [
          | inl s ↦
              rw (dispatch, e, a, s)
                (
                  record {
                    counted = omega (arith, h.counted, one);
                    bounded = h.bounded;
                    slots = ground (arith, h.slots);
                  },
                  λ d. (d, omega arith),
                )
          | inr s ↦
              rw (dispatch, e, a, s)
                (
                  record {
                    counted = omega (arith, h.counted, one);
                    bounded = h.bounded;
                    slots = h.slots;
                  },
                  λ d. (d, omega arith),
                )
        ]
        | inr a ↦
            rw (dispatch, e, a)
              (
                record {
                  counted = omega (arith, h.counted, one);
                  bounded = omega arith;
                  slots = h.slots;
                },
                λ d. (d, omega arith),
              )
      ]
]

cancel-Keeps : (q : DestroyQueue) → IsBalanced q → Keeps q (cancel q)
unfolding cancel drain_destroy_queue
cancel-Keeps q h = elim (Option-cases q.held) [
  | inr (r, e) ↦
      let one : held_count q.held ≡ 1 = ap held_count e in
      rw (cancel, e)
        (
          record { counted = omega (arith, h.counted, one); bounded = h.bounded; slots = h.slots },
          λ d. (d, omega arith),
        )
  | inl n ↦
      let free : held_count q.held ≡ 0 = ap held_count n in
      rw (cancel, n)
        (
          record {
            counted = omega (arith, h.counted, free);
            bounded = omega arith;
            slots = h.slots;
          },
          λ d. (d, omega arith),
        )
]

Step-Keeps : {q u : DestroyQueue} → Step q u → IsBalanced q → Keeps q u
unfolding worker_done rollback_acquires rollback_done begin_drain
Step-Keeps {q} (enqueues r) h = destroy_async-Keeps q r h
Step-Keeps {q} (receives live) h = receive-Keeps q h
Step-Keeps {q} (dispatches acquired live) h = dispatch-Keeps q acquired h
Step-Keeps {q} (cancels live) h = cancel-Keeps q h
Step-Keeps {q} (ends some_active) h = (
  record {
    counted = omega (arith, h.counted);
    bounded = h.bounded;
    slots = omega (arith, h.slots);
  },
  λ d. (d, omega arith),
)
Step-Keeps {q} rolls h = elim (Bool-cases (has_slot q)) [
  | inl s ↦
      rw (rollback_acquires, s)
        (
          record { counted = h.counted; bounded = h.bounded; slots = ground arith },
          λ d. (d, omega arith),
        )
  | inr s ↦ rw (rollback_acquires, s) (stays q h)
]
Step-Keeps {q} (rolled some_rollback) h = (
  record { counted = h.counted; bounded = h.bounded; slots = omega (arith, h.slots) },
  λ d. (d, omega arith),
)
Step-Keeps {q} drains h =
    (record { counted = h.counted; bounded = h.bounded; slots = h.slots }, λ d. (refl, omega arith))

Run-Keeps : {q u : DestroyQueue} → IsBalanced q → Run q u → Keeps q u
Run-Keeps {q} h here = stays q h
Run-Keeps h (next r s) =
    let (b, le) = Run-Keeps h r in
    let (c, le') = Step-Keeps s b in
    (c, λ d. let (e, x) = le d in let (f, y) = le' e in (f, omega (arith, x, y)))

-- Over any interleaving from an empty queue: the wait group counts exactly the queued requests, the one
-- that the dispatcher holds and the running destroy workers, so that it is 0 only when no destroy is
-- left; the queue is never longer than its cap, destroy and rollback workers together never exceed the
-- semaphore, and at most 25 destroys are live. From the moment the drain begins, whatever follows,
-- the wait group never grows, so that the drain waits for no later request.
pub destroy_waits :
    (q u : DestroyQueue)
    → Run initial q
    → Run (begin_drain q) u
    → (q.waits ≡ length q.requests + held_count q.held + q.active)
      × (length q.requests ≤ 16)
      × (q.active + q.rollbacks ≤ 8)
      × (q.waits ≤ 25)
      × (u.waits ≡ length u.requests + held_count u.held + u.active)
      × (u.waits ≤ q.waits)
unfolding begin_drain
destroy_waits q u before after =
    let start : IsBalanced initial = record {
      counted = omega arith;
      bounded = omega arith;
      slots = omega arith;
    } in
    let b = (Run-Keeps start before).0 in
    let b' : IsBalanced (begin_drain q) = (Step-Keeps drains b).0 in
    let (e, later) = Run-Keeps b' after in
    (
      b.counted,
      b.bounded,
      b.slots,
      omega (arith, b.counted, b.bounded, b.slots, held_count_bound q.held),
      e.counted,
      (later refl).1,
    )
  where
    held_count_bound : (o : Option DestroyRequest) → held_count o ≤ 1
    held_count_bound none = omega arith
    held_count_bound (some r) = omega arith
