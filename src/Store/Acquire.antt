-- ===== src/Store/Acquire.antt =====
-- AcquireHot and AcquireHotInProfile of internal/store/store.go.
use actions_runner_scaleset.Prelude.{
  ℕ, ◌+◌, Bool, false, Option, none, some, List, [], ◌∷◌, String, str_eq, leb, ltb, length,
  if◌then◌else◌,
}
use actions_runner_scaleset.Store.{
  Vm, hot, assigned, running, Result, err, at_capacity, none_available,
}
use actions_runner_scaleset.Store.Table.{Memdb, by_state, by_profile_state}
use actions_runner_scaleset.Store.Write.{enter, commit_row}

-- The loop that keeps the first row with the least CreatedAt.
unfoldable pub oldest_from : Option Vm → List Vm → Option Vm
oldest_from best [] = best
oldest_from none (v ∷ vs) = oldest_from (some v) vs
oldest_from (some best) (v ∷ vs) =
    oldest_from (if ltb v.created_at best.created_at then some v else some best) vs

-- The row that a claim writes.
unfoldable pub claim : Vm → ℕ → ℕ → Vm
unfolding enter
claim v job_id now = record (enter v assigned now) { job_id = job_id }

module _ (db : Memdb) where
  open db use {Table, get}

  -- countBusy
  unfoldable pub count_busy : Table → String → ℕ
  count_busy t profile =
      if str_eq profile ""
      then length (get t (by_state assigned)) + length (get t (by_state running))
      else length (get t (by_profile_state profile assigned))
        + length (get t (by_profile_state profile running))

  -- `maxBusy > 0 && busy >= maxBusy`, where an empty profile uses the global count
  unfoldable pub over_busy : Table → String → ℕ → Bool
  unfolding count_busy
  over_busy t profile max_busy =
      if ltb 0 max_busy then leb max_busy (count_busy t profile) else false

  unfoldable pub hot_rows : Table → String → List Vm
  hot_rows t profile =
      if str_eq profile "" then get t (by_state hot) else get t (by_profile_state profile hot)

  unfoldable pub acquire_hot_in_profile : Table → String → ℕ → ℕ → ℕ → ℕ → Table × Result Vm
  unfolding count_busy over_busy hot_rows
  acquire_hot_in_profile t profile job_id max_concurrent max_busy now =
      if leb max_concurrent (count_busy t "")
      then (t, err at_capacity)
      else if over_busy t profile max_busy
      then (t, err at_capacity)
      else elim (oldest_from none (hot_rows t profile)) [
        | none ↦ (t, err none_available)
        | some oldest ↦ (let cp = claim oldest job_id now in commit_row db t cp cp)
      ]

  unfoldable pub acquire_hot : Table → ℕ → ℕ → ℕ → ℕ → Table × Result Vm
  unfolding acquire_hot_in_profile
  acquire_hot t job_id max_concurrent max_busy now =
      acquire_hot_in_profile t "" job_id max_concurrent max_busy now
