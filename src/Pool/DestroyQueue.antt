-- ===== src/Pool/DestroyQueue.antt =====
-- The destroy queue of internal/pool/manager.go: destroyAsync, destroyDispatcher and the drain gate.
-- `waits` is the part of the wait group that belongs to destroys. The channel operations, the wait
-- group and the semaphore are those of the language and its library.
pub mod Balance
mod Examples
use actions_runner_scaleset.Prelude.{
  ℕ, ◌+◌, ◌-◌, Bool, true, false, Option, none, some, List, [], ◌∷◌, ◌++◌, String, length, ltb,
  if◌then◌else◌,
}

pub record DestroyRequest : Type 0 where
  pub vmid : ℕ
  pub node : String
  pub profile : String

pub record DestroyQueue : Type 0 where
  pub requests : List DestroyRequest
  -- the request that the dispatcher has received and waits for the semaphore with
  pub held : Option DestroyRequest
  -- the running destroy workers, and the rollback workers that share the semaphore with them
  pub active : ℕ
  pub rollbacks : ℕ
  pub waits : ℕ
  pub draining : Bool
  -- the dispatcher has seen the cancelled worker context and returned
  pub stopped : Bool

-- destroyQueueCap
abbrev pub destroy_queue_cap : ℕ
destroy_queue_cap = 16

-- maxConcurrentDestroys, the size of destroySem
abbrev pub max_concurrent_destroys : ℕ
max_concurrent_destroys = 8

-- destroyAsync
unfoldable pub destroy_async : DestroyQueue → DestroyRequest → DestroyQueue
destroy_async q r =
    if q.draining
    then q
    else let entered = record q { waits = q.waits + 1 } in
      if ltb (length q.requests) destroy_queue_cap
      then record entered { requests = q.requests ++ r ∷ [] }
      else record entered { waits = entered.waits - 1 }

-- drainDestroyQueueLocked
unfoldable pub drain_destroy_queue : DestroyQueue → DestroyQueue
drain_destroy_queue q = record q { requests = []; waits = q.waits - length q.requests }

-- The dispatcher receives a request from the channel, unless it waits for the semaphore.
unfoldable pub receive : DestroyQueue → DestroyQueue
receive q = elim q.held [
  | some r ↦ q
  | none ↦ elim q.requests [ [] ↦ q | r ∷ rest ↦ record q { requests = rest; held = some r } ]
]

-- A slot of the semaphore is free.
abbrev pub has_slot : DestroyQueue → Bool
has_slot q = ltb (q.active + q.rollbacks) max_concurrent_destroys

-- The dispatcher's Acquire with the request that it holds: with a slot it starts a worker, without one
-- it goes on waiting, and when the worker context is cancelled before that it releases the request and
-- all the queued ones and returns.
unfoldable pub dispatch : DestroyQueue → Bool → DestroyQueue
unfolding drain_destroy_queue
dispatch q acquired = elim q.held [
  | none ↦ q
  | some r ↦
      if acquired
      then if has_slot q then record q { held = none; active = q.active + 1 } else q
      else record (drain_destroy_queue (record q { held = none; waits = q.waits - 1 })) {
        stopped = true;
      }
]

-- The dispatcher sees the cancelled worker context between requests.
unfoldable pub cancel : DestroyQueue → DestroyQueue
unfolding drain_destroy_queue
cancel q = elim q.held [ some r ↦ q | none ↦ record (drain_destroy_queue q) { stopped = true } ]

-- A destroy worker ends.
unfoldable pub worker_done : DestroyQueue → DestroyQueue
worker_done q = record q { active = q.active - 1; waits = q.waits - 1 }

-- A rollback worker acquires the semaphore, and releases it.
unfoldable pub rollback_acquires : DestroyQueue → DestroyQueue
rollback_acquires q = if has_slot q then record q { rollbacks = q.rollbacks + 1 } else q

unfoldable pub rollback_done : DestroyQueue → DestroyQueue
rollback_done q = record q { rollbacks = q.rollbacks - 1 }

-- The start of drain: from here on nothing is enqueued.
unfoldable pub begin_drain : DestroyQueue → DestroyQueue
begin_drain q = record q { draining = true }
