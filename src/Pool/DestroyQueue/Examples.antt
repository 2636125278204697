-- ===== src/Pool/DestroyQueue/Examples.antt =====
-- An instance of the theorem on the destroy queue of internal/pool/manager.go.
use actions_runner_scaleset.Prelude.{ℕ, ◌≤◌, refl, true, arith}
use actions_runner_scaleset.Pool.DestroyQueue.{
  DestroyRequest, DestroyQueue, destroy_async, receive, dispatch, worker_done, begin_drain,
}
use actions_runner_scaleset.Pool.DestroyQueue.Balance.{
  Run, here, next, enqueues, receives, dispatches, ends, initial, destroy_waits,
}

abbrev request : ℕ → DestroyRequest
request vmid = record { vmid = vmid; node = "pve1"; profile = "default" }

-- Three destroys are queued; a worker runs the first and the dispatcher holds the second one. Then the
-- drain begins.
abbrev three_queued : DestroyQueue
three_queued =
    destroy_async (destroy_async (destroy_async initial (request 3)) (request 5)) (request 6)

abbrev one_held : DestroyQueue
one_held = receive (dispatch (receive three_queued) true)

queued : Run initial one_held
unfolding destroy_async receive dispatch
queued =
    next
      (next
        (next
          (next (next (next here (enqueues (request 3))) (enqueues (request 5)))
            (enqueues (request 6)))
          (receives refl))
        (dispatches true refl))
      (receives refl)

drained :
    Run (begin_drain one_held) (worker_done (destroy_async (begin_drain one_held) (request 7)))
unfolding destroy_async receive dispatch begin_drain
drained = next (next here (enqueues (request 7))) (ends (omega arith))

destroy_waits_example :
    (worker_done (destroy_async (begin_drain one_held) (request 7))).waits ≤ one_held.waits
destroy_waits_example =
    (destroy_waits one_held (worker_done (destroy_async (begin_drain one_held) (request 7))) queued
      drained).5
