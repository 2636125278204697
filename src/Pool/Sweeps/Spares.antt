-- ===== src/Pool/Sweeps/Spares.antt =====
-- The sweeps of internal/pool/manager.go over idle rows never disturb a row that serves a job.
use actions_runner_scaleset.Prelude.{
  ℕ, ◌-◌, ◌==◌, ◌+◌, ◌≡◌, refl, inl, inr, Bool, false, some, List, [], ◌∷◌, String, arith, All,
  All-append, All-of-In, Bool-cases, if◌then◌else◌, leb, ltb, take, str_eq,
}
use actions_runner_scaleset.Store.{
  Vm, State, warm, booting, hot, running, draining, hot_kind, state_eq,
}
use actions_runner_scaleset.Store.Table.{Memdb, by_profile_state, selects}
use actions_runner_scaleset.Store.Read.{
  is_one_of, list_by_profile_and_states, list_by_state, count_by_profile_state,
}
use actions_runner_scaleset.Store.Write.{enter, update_state}
use actions_runner_scaleset.Store.Lookup.{SameIdentity}
use actions_runner_scaleset.Store.Rows.{In-get}
use actions_runner_scaleset.Store.Validity.{IsValid, update_state-IsValid}
use actions_runner_scaleset.Store.Steps.{Reach-IsValid}
use actions_runner_scaleset.Store.Guards.{update_state-Outcome, Outcome-spares}
use actions_runner_scaleset.Pool.Handlers.{set_since}
use actions_runner_scaleset.Pool.Sweeps.{
  Others, drain_rows, shrink_hot_pool, shrink_warm_pool, recycle_rows, recycle_old_vms,
  promote_rows, promote_n, applied, sort_by_age,
}

module _ (db : Memdb) where
  open db use {Table, first}

  -- A compare-and-set from a state other than running, after the other goroutines' transactions.
  cas_spares :
      (t : Table) (vmid : ℕ) (from to : State) (mutate : Vm → Vm) (now k : ℕ) (v : Vm)
      → ((x : Vm) → SameIdentity x (mutate (enter x to now)))
      → state_eq from running ≡ false
      → IsValid db t
      → first t k ≡ some v
      → v.state ≡ running
      → first (update_state db t vmid from to mutate now).0 k ≡ some v
  unfolding is_one_of state_eq
  cas_spares t vmid from to mutate now k v keeps n h f s =
      Outcome-spares db t vmid (from ∷ []) (λ x. mutate (enter x to now)) _
        (update_state-Outcome db t vmid from to mutate now keeps h) k v f (ground (arith, s, n))

module _ (db : Memdb) (others : Others db) (clock : ℕ → ℕ) (k : ℕ) (v : Vm)
    (is_running : v.state ≡ running)
    (kept : (i : ℕ) (t : db.Table)
      → db.first t k ≡ some v
      → db.first (others i t).0 k ≡ some v) where
  open db use {Table, first}

  abbrev Holds : Table → Type 0
  Holds t = IsValid db t × (first t k ≡ some v)

  step_spares :
      (i : ℕ) (t : Table) (vmid : ℕ) (from to : State) (mutate : Vm → Vm)
      → ((x : Vm) → SameIdentity x (mutate (enter x to (clock i))))
      → state_eq from running ≡ false
      → Holds t
      → Holds (update_state db (others i t).0 vmid from to mutate (clock i)).0
  step_spares i t vmid from to mutate keeps n (h, f) =
      let (u, r) = others i t in
      let h' = Reach-IsValid db h (others i t).1 in
      (
        update_state-IsValid db (others i t).0 vmid from to mutate (clock i) h',
        cas_spares db (others i t).0 vmid from to mutate (clock i) k v keeps n h' (kept i t f)
            is_running,
      )

  drain_rows-spares :
      (profile : String) (from : State) (mutate : ℕ → Vm → Vm) (excess killed i : ℕ)
      (rows : List Vm) (t : Table)
      → ((j : ℕ) (x : Vm) → SameIdentity x (mutate j (enter x draining (clock j))))
      → state_eq from running ≡ false
      → Holds t
      → Holds (drain_rows db others clock profile from mutate excess killed i rows t).0
  unfolding drain_rows
  drain_rows-spares profile from mutate excess killed i [] t keeps n h = h
  drain_rows-spares profile from mutate excess killed i (row ∷ rows) t keeps n h =
      elim (Bool-cases (leb excess killed)) [
        | inl e ↦ rw (drain_rows, e) h
        | inr e ↦
            rw (drain_rows, e)
              (drain_rows-spares profile from mutate excess
                (killed
                  + applied
                      (update_state db (others i t).0 row.vmid from draining (mutate i)
                        (clock i)).1)
                (i + 1) rows _ keeps n
                (step_spares i t row.vmid from draining (mutate i) (keeps i) n h))
      ]

  recycle_rows-spares :
      (profile : String) (max_age start i : ℕ) (rows : List Vm) (t : Table)
      → All (λ (o : Vm). state_eq o.state running ≡ false) rows
      → Holds t
      → Holds (recycle_rows db others clock profile max_age start i rows t).0
  unfolding recycle_rows enter
  recycle_rows-spares profile max_age start i [] t idle h = h
  recycle_rows-spares profile max_age start i (o ∷ rows) t idle h =
      elim (Bool-cases (ltb (o.created_at + max_age) start)) [
        | inl e ↦
            rw (recycle_rows, e)
              (recycle_rows-spares profile max_age start (i + 1) rows _ idle.1 (
                step_spares i t o.vmid o.state draining (λ x. x) (λ x. (refl, refl, refl)) idle.0
                  h))
        | inr e ↦
            rw (recycle_rows, e) (recycle_rows-spares profile max_age start (i + 1) rows t idle.1 h)
      ]

  promote_rows-spares :
      (slot : ℕ → Bool) (i : ℕ) (rows : List Vm) (t : Table)
      → Holds t
      → Holds (promote_rows db others clock slot i rows t).0
  unfolding promote_rows enter state_eq
  promote_rows-spares slot i [] t h = h
  promote_rows-spares slot i (w ∷ rows) t h = elim (Bool-cases (slot i)) [
    | inl e ↦
        rw (promote_rows, e)
          (promote_rows-spares slot (i + 1) rows _ (
            step_spares i t w.vmid warm booting (λ x. record x { pool_kind = hot_kind })
              (λ x. (refl, refl, refl)) refl h))
    | inr e ↦ rw (promote_rows, e) (promote_rows-spares slot (i + 1) rows t h)
  ]

  listed_in :
      (t : Table) (profile : String) (from : State)
      → state_eq from running ≡ false
      → All
          (λ (o : Vm). state_eq o.state running ≡ false)
          (db.get t (by_profile_state profile from))
  unfolding selects state_eq
  listed_in t profile from n =
      All-of-In _ _ (λ o m. ground (arith, (In-get db t (by_profile_state profile from) o).0 m, n))

  listed_idle :
      (t : Table) (profile : String)
      → All
          (λ (o : Vm). state_eq o.state running ≡ false)
          (list_by_profile_and_states db t profile (hot ∷ warm ∷ []))
  unfolding list_by_profile_and_states state_eq
  listed_idle t profile =
      All-append _ _ _ (listed_in t profile hot refl)
        (All-append _ _ [] (listed_in t profile warm refl) tt)

  shrink_hot_pool-spares :
      (t t_stats t_list : Table) (profile : String) (hot_size desired busy : ℕ)
      → Holds t
      → Holds (shrink_hot_pool db others clock t_stats t_list profile hot_size desired busy t).0
  unfolding shrink_hot_pool enter state_eq
  shrink_hot_pool-spares t t_stats t_list profile hot_size desired busy h =
      let target = if ltb hot_size (desired - busy) then desired - busy else hot_size in
      let hots = count_by_profile_state db t_stats profile hot in
      elim (Bool-cases (leb hots target)) [
        | inl e ↦ rw (shrink_hot_pool, e) h
        | inr e ↦
            rw (shrink_hot_pool, e)
              (drain_rows-spares profile hot (λ i. set_since (clock i)) (hots - target) 0 0
                (sort_by_age (list_by_profile_and_states db t_list profile (hot ∷ []))) t
                (λ j x. (refl, refl, refl)) refl h)
      ]

  shrink_warm_pool-spares :
      (t t_stats t_list : Table) (profile : String) (warm_size : ℕ)
      → Holds t
      → Holds (shrink_warm_pool db others clock t_stats t_list profile warm_size t).0
  unfolding shrink_warm_pool enter state_eq
  shrink_warm_pool-spares t t_stats t_list profile warm_size h =
      let warms = count_by_profile_state db t_stats profile warm in
      elim (Bool-cases (leb warms warm_size)) [
        | inl e ↦ rw (shrink_warm_pool, e) h
        | inr e ↦
            rw (shrink_warm_pool, e)
              (drain_rows-spares profile warm (λ i x. x) (warms - warm_size) 0 0
                (sort_by_age (list_by_profile_and_states db t_list profile (warm ∷ []))) t
                (λ j x. (refl, refl, refl)) refl h)
      ]

  recycle_old_vms-spares :
      (t t_list : Table) (profile : String) (max_age start : ℕ)
      → Holds t
      → Holds (recycle_old_vms db others clock t_list profile max_age start t).0
  unfolding recycle_old_vms
  recycle_old_vms-spares t t_list profile max_age start h = elim (Bool-cases (max_age == 0)) [
    | inl e ↦ rw (recycle_old_vms, e) h
    | inr e ↦
        rw (recycle_old_vms, e)
          (recycle_rows-spares profile max_age start 0 _ t (listed_idle t_list profile) h)
  ]

  -- A row that is running, and that the other goroutines leave alone, is left exactly as it is by
  -- shrinkHotPool, shrinkWarmPool, recycleOldVMs and promoteN: on any valid table, from any listing
  -- and statistics, however old, and whatever the other goroutines do to the other rows meanwhile.
  pub idle_sweeps_spare :
      (t t_stats t_list : Table) (profile : String)
      (hot_size desired busy warm_size max_age start n : ℕ) (slot : ℕ → Bool)
      → IsValid db t
      → first t k ≡ some v
      → (first (shrink_hot_pool db others clock t_stats t_list profile hot_size desired busy t).0 k
          ≡ some v)
        × (first (shrink_warm_pool db others clock t_stats t_list profile warm_size t).0 k ≡ some v)
        × (first (recycle_old_vms db others clock t_list profile max_age start t).0 k ≡ some v)
        × (first (promote_n db others clock t_list slot profile n t).0 k ≡ some v)
  unfolding promote_n
  idle_sweeps_spare t t_stats t_list profile hot_size desired busy warm_size max_age start n slot h
        f =
      let warms =
        if str_eq profile ""
        then list_by_state db t_list (warm ∷ [])
        else list_by_profile_and_states db t_list profile (warm ∷ []) in
      (
        (shrink_hot_pool-spares t t_stats t_list profile hot_size desired busy (h, f)).1,
        (shrink_warm_pool-spares t t_stats t_list profile warm_size (h, f)).1,
        (recycle_old_vms-spares t t_list profile max_age start (h, f)).1,
        (promote_rows-spares slot 0 (take n (sort_by_age warms)) t (h, f)).1,
      )
