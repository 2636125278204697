-- ===== src/Pool/Sweeps.antt =====
-- The loops of internal/pool/manager.go that thin the pool out: shrinkHotPool, shrinkWarmPool,
-- recycleOldVMs, sweepStuckRows and promoteN. Each lists rows once and then writes them one by one.
-- `others i t` is what the other goroutines make of the table `t` before the write of the i-th row,
-- by transactions of the store; `clock i` is the time of that write.
pub mod Spares
pub mod Stuck
pub mod Order
pub mod Drains
pub mod Shrink
mod Examples
use actions_runner_scaleset.Prelude.{
  ℕ, ◌+◌, ◌-◌, ◌==◌, Bool, true, false, ◌&&◌, Option, none, some, List, [], ◌∷◌, String, str_eq,
  ltb, leb, take, filter, length, if◌then◌else◌,
}
use actions_runner_scaleset.Store.{
  Vm, State, provisioning, warm, booting, hot, recycling, draining, destroying, hot_kind, Result,
  ok, err,
}
use actions_runner_scaleset.Store.Table.{Memdb}
use actions_runner_scaleset.Store.Read.{
  count_by_profile_state, list_by_profile_and_states, list_by_state,
}
use actions_runner_scaleset.Store.Write.{update, update_state}
use actions_runner_scaleset.Store.Steps.{Reach}
use actions_runner_scaleset.Pool.Handlers.{Effect, destroy_async, set_since}

-- `sort.Slice` by CreatedAt: it may order rows of one age in any way
unfoldable pub insert_by_age : Vm → List Vm → List Vm
insert_by_age v [] = v ∷ []
insert_by_age v (w ∷ ws) =
    let rest = insert_by_age v ws in if leb v.created_at w.created_at then v ∷ w ∷ ws else w ∷ rest

unfoldable pub sort_by_age : List Vm → List Vm
unfolding insert_by_age
sort_by_age [] = []
sort_by_age (v ∷ vs) = insert_by_age v (sort_by_age vs)

-- The destroy that follows a write that was applied.
abbrev pub teardown : Result Bool → Vm → String → List Effect → List Effect
teardown (ok true) row profile rest = destroy_async row.vmid row.node profile ∷ rest
teardown (ok false) row profile rest = rest
teardown (err e) row profile rest = rest

abbrev pub applied : Result Bool → ℕ
applied (ok true) = 1
applied (ok false) = 0
applied (err e) = 0

abbrev pub requeue : Result Vm → Vm → List Effect → List Effect
requeue (ok row) s rest = destroy_async s.vmid s.node s.profile ∷ rest
requeue (err e) s rest = rest

-- The stuck grace of 5 minutes, in nanoseconds.
abbrev pub stuck_grace : ℕ
stuck_grace = 300000000000

module _ (db : Memdb) where
  open db use {Table}

  abbrev pub Others : Type 0
  Others = ℕ → (t : Table) → (u : Table) × Reach db t u

module _ (db : Memdb) (others : Others db) (clock : ℕ → ℕ) where
  open db use {Table}

  -- The loop of shrinkHotPool and shrinkWarmPool, from its i-th row on and with `killed` so far.
  unfoldable pub drain_rows :
      String → State → (ℕ → Vm → Vm) → ℕ → ℕ → ℕ → List Vm → Table → Table × List Effect
  drain_rows profile from mutate excess killed i [] t = (t, [])
  drain_rows profile from mutate excess killed i (row ∷ rows) t =
      let (u, r) = update_state db (others i t).0 row.vmid from draining (mutate i) (clock i) in
      let (w, effects) =
        drain_rows profile from mutate excess (killed + applied r) (i + 1) rows u in
      if leb excess killed then (t, []) else (w, teardown r row profile effects)

  -- shrinkHotPool, with the tables of its re-stats and of its listing
  unfoldable pub shrink_hot_pool : Table → Table → String → ℕ → ℕ → ℕ → Table → Table × List Effect
  unfolding drain_rows sort_by_age
  shrink_hot_pool t_stats t_list profile hot_size desired busy t =
      let burst_target = desired - busy in
      let hot_target = if ltb hot_size burst_target then burst_target else hot_size in
      let hots = count_by_profile_state db t_stats profile hot in
      if leb hots hot_target
      then (t, [])
      else drain_rows profile hot (λ i. set_since (clock i)) (hots - hot_target) 0 0
          (sort_by_age (list_by_profile_and_states db t_list profile (hot ∷ []))) t

  -- shrinkWarmPool
  unfoldable pub shrink_warm_pool : Table → Table → String → ℕ → Table → Table × List Effect
  unfolding drain_rows sort_by_age
  shrink_warm_pool t_stats t_list profile warm_size t =
      let warms = count_by_profile_state db t_stats profile warm in
      if leb warms warm_size
      then (t, [])
      else drain_rows profile warm (λ i v. v) (warms - warm_size) 0 0
          (sort_by_age (list_by_profile_and_states db t_list profile (warm ∷ []))) t

  -- The loop of recycleOldVMs; `start` is the time that its cutoff is taken from
  unfoldable pub recycle_rows : String → ℕ → ℕ → ℕ → List Vm → Table → Table × List Effect
  recycle_rows profile max_age start i [] t = (t, [])
  recycle_rows profile max_age start i (o ∷ rows) t =
      let (u, r) = update_state db (others i t).0 o.vmid o.state draining (λ v. v) (clock i) in
      let old = ltb (o.created_at + max_age) start in
      let (w, effects) = recycle_rows profile max_age start (i + 1) rows (if old then u else t) in
      (w, if old then teardown r o profile effects else effects)

  -- recycleOldVMs; a max age of 0 disables it
  unfoldable pub recycle_old_vms : Table → String → ℕ → ℕ → Table → Table × List Effect
  unfolding recycle_rows
  recycle_old_vms t_list profile max_age start t =
      if max_age == 0
      then (t, [])
      else recycle_rows profile max_age start 0
          (list_by_profile_and_states db t_list profile (hot ∷ warm ∷ [])) t

  -- The loop of sweepStuckRows, whose write is not conditional on the row's state
  unfoldable pub sweep_rows : ℕ → ℕ → List Vm → Table → Table × List Effect
  sweep_rows start i [] t = (t, [])
  sweep_rows start i (s ∷ rows) t =
      let (u, r) =
        update db (others i t).0 s.vmid (λ v. record v { state = draining; state_since = clock i })
          (clock i) in
      let stuck = ltb (s.updated_at + stuck_grace) start in
      let (w, effects) = sweep_rows start (i + 1) rows (if stuck then u else t) in
      (w, if stuck then requeue r s effects else effects)

  -- sweepStuckRows
  unfoldable pub sweep_stuck_rows : Table → ℕ → Table → Table × List Effect
  unfolding sweep_rows
  sweep_stuck_rows t_list start t =
      sweep_rows start 0
        (list_by_state db t_list (provisioning ∷ booting ∷ recycling ∷ draining ∷ destroying ∷ []))
        t

  -- The loop of promoteN: `slot i` is what bootSem.TryAcquire answers. The result lists the rows
  -- whose boot is started.
  unfoldable pub promote_rows : (ℕ → Bool) → ℕ → List Vm → Table → Table × List Vm
  promote_rows slot i [] t = (t, [])
  promote_rows slot i (w ∷ rows) t =
      let (u, r) =
        update_state db (others i t).0 w.vmid warm booting (λ v. record v { pool_kind = hot_kind })
          (clock i) in
      let (z, boots) = promote_rows slot (i + 1) rows (if slot i then u else t) in
      (z, if slot i && applied r == 1 then w ∷ boots else boots)

  -- promoteN
  unfoldable pub promote_n : Table → (ℕ → Bool) → String → ℕ → Table → Table × List Vm
  unfolding promote_rows sort_by_age
  promote_n t_list slot profile n t =
      let warms =
        if str_eq profile ""
        then list_by_state db t_list (warm ∷ [])
        else list_by_profile_and_states db t_list profile (warm ∷ []) in
      promote_rows slot 0 (take n (sort_by_age warms)) t
