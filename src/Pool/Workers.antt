-- ===== src/Pool/Workers.antt =====
-- The store writes of the background workers of internal/pool/manager.go: the end of a clone, the
-- boot, the poison count, the snapshot rollback and the destroy. The calls of Proxmox and GitHub
-- between them are outcomes that the definitions take as arguments; each write names the table that
-- it runs on, since a worker holds no lock while it waits for those calls.
pub mod Boot
pub mod Rollback
mod Examples
use actions_runner_scaleset.Prelude.{
  ℕ, ◌+◌, ◌==◌, Bool, true, false, ◌&&◌, ◌||◌, not, Option, none, some, List, [], ◌∷◌, String, leb,
  str_eq, if◌then◌else◌,
}
use actions_runner_scaleset.Store.{
  Vm, State, warm, booting, hot, recycling, draining, destroying, poison, warm_kind, Result, ok,
  err, not_found,
}
use actions_runner_scaleset.Store.Table.{Memdb}
use actions_runner_scaleset.Store.Write.{update, update_state, delete_and_return}
use actions_runner_scaleset.Pool.Config.{Config, profile_of}
use actions_runner_scaleset.Pool.Handlers.{
  Effect, destroy_async, signal_refill, set_since, after_cas, done,
}

abbrev pub goes : State → ℕ → Vm → Vm
goes to since v = record v { state = to; state_since = since }

-- How the end of a clone goes on.
pub data Next : Type 0 where
  -- `m.runBootInline` (or the start of the VM before it) on the row written
  boots : Vm → Next
  -- the row is warm
  rests : Next
  -- the row is gone: `m.destroyOrSyncFallback`
  orphaned : Next
  gives_up : Next

-- BootMaxAttempts of the row's profile, or of the fleet.
unfoldable pub boot_threshold : Config → String → ℕ
unfolding profile_of
boot_threshold cfg profile = elim (profile_of cfg.profiles profile) [
  | none ↦ cfg.boot_max_attempts
  | some ps ↦ ps.boot_max_attempts
]

-- The row that a rollback hands back without its runner and its job.
unfoldable pub unpair : Vm → Vm
unpair v = record v { runner_id = 0; job_id = 0; org = ""; repo = ""; priority_class = "" }

unfoldable pub recycled : ℕ → Vm → Vm
recycled since v = record v {
  pool_kind = warm_kind;
  recycle_count = v.recycle_count + 1;
  state_since = since;
  has_recycle_snapshot = true;
}

module _ (db : Memdb) where
  open db use {Table, first}

  -- The end of runClone, after a clone that succeeded.
  unfoldable pub finish_clone : Table → ℕ → Bool → Bool → ℕ → ℕ → Table × Next
  finish_clone t vmid powered_on has_snapshot since now =
      let target = if powered_on then booting else warm in
      let (u, r) =
        update db t vmid
          (λ v. record v {
            state = target;
            state_since = since;
            has_recycle_snapshot = has_snapshot;
          })
          now in
      (
        u,
        elim r [
          | ok row ↦ if powered_on then boots row else rests
          | err not_found ↦ orphaned
          | err e ↦ gives_up
        ],
      )

  -- The end of runBootInline, after WaitReady succeeded.
  unfoldable pub finish_boot : Table → ℕ → ℕ → ℕ → Table × List Effect
  finish_boot t vmid since now = ((update db t vmid (goes hot since) now).0, signal_refill ∷ [])

  -- markPoisonOrDestroy: the count, on the first table
  unfoldable pub count_attempt : Table → ℕ → ℕ → Table × Result Vm
  count_attempt t vmid now =
      update db t vmid (λ v. record v { boot_attempts = v.boot_attempts + 1 }) now

  -- markPoisonOrDestroy: what follows, for the row that the count wrote
  unfoldable pub settle_attempt : Config → Table → String → Vm → ℕ → ℕ → Table × List Effect
  unfolding boot_threshold
  settle_attempt cfg t profile counted since now =
      if leb (boot_threshold cfg profile) counted.boot_attempts
      then ((update db t counted.vmid (goes poison since) now).0, [])
      else (
        (update db t counted.vmid (goes destroying since) now).0,
        destroy_async counted.vmid counted.node counted.profile ∷ [],
      )

  -- handleCloneFailure; the destroy that follows it is queued
  unfoldable pub handle_clone_failure : Table → ℕ → String → String → ℕ → ℕ → Table × List Effect
  handle_clone_failure t vmid node profile since now =
      ((update db t vmid (goes destroying since) now).0, destroy_async vmid node profile ∷ [])

  -- The first write of rollback, with the runner to deregister; none if the row is gone
  unfoldable pub clear_pairing : Table → ℕ → ℕ → Table × Option ℕ
  unfolding unpair
  clear_pairing t vmid now = elim (first t vmid) [
    | none ↦ (t, none)
    | some v ↦ ((update db t vmid unpair now).0, some v.runner_id)
  ]

  -- fallbackDestroy
  unfoldable pub fallback_destroy : Table → ℕ → String → String → ℕ → ℕ → Table × List Effect
  fallback_destroy t vmid node profile since now =
      let (u, effects, r) =
        after_cas (update_state db t vmid recycling draining (set_since since) now)
          (destroy_async vmid node profile ∷ []) done in
      (u, effects)

  -- The end of rollback, after a SnapshotRollback that succeeded or failed.
  unfoldable pub finish_rollback : Bool → Table → ℕ → String → String → ℕ → ℕ → Table × List Effect
  unfolding fallback_destroy recycled
  finish_rollback succeeded t vmid node profile since now =
      if succeeded
      then (let (u, effects, r) =
            after_cas (update_state db t vmid recycling warm (recycled since) now)
              (signal_refill ∷ []) done in
          (u, effects))
      else fallback_destroy t vmid node profile since now

  -- destroy, after the provisioner deleted the VM: the row goes, and its runner is to be
  -- deregistered when it has one
  unfoldable pub finish_destroy : Table → ℕ → Table × Option ℕ
  finish_destroy t vmid =
      let (u, deleted) = delete_and_return db t vmid in
      (
        u,
        elim deleted [
          | none ↦ none
          | some row ↦ if row.runner_id == 0 then none else some row.runner_id
        ],
      )
