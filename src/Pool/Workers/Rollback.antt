-- ===== src/Pool/Workers/Rollback.antt =====
-- The snapshot rollback of internal/pool/manager.go.
use actions_runner_scaleset.Prelude.{
  ℕ, ◌+◌, ◌≡◌, ◌≢◌, Option, refl, inl, inr, ◌⊎◌, Bool, true, false, some, String, List, [], ◌∷◌,
  arith, if◌then◌else◌, ap, ◌∙◌,
}
use actions_runner_scaleset.Store.{Vm, warm, recycling, draining, warm_kind, state_eq}
use actions_runner_scaleset.Store.Table.{Memdb}
use actions_runner_scaleset.Store.Read.{is_one_of}
use actions_runner_scaleset.Store.Write.{enter}
use actions_runner_scaleset.Store.Validity.{IsValid}
use actions_runner_scaleset.Store.Transitions.{Replaces}
use actions_runner_scaleset.Store.Guards.{update_state-Outcome, update_present}
use actions_runner_scaleset.Pool.Handlers.{Effect, destroy_async, signal_refill, set_since}
use actions_runner_scaleset.Pool.Workers.{
  unpair, recycled, clear_pairing, finish_rollback, fallback_destroy,
}

module _ (db : Memdb) where
  open db use {Table, first, put, first-put, first-vmid}

  at_own_key :
      (t : Table) (vmid : ℕ) (row : Vm) → row.vmid ≡ vmid → first (put t row) vmid ≡ some row
  at_own_key t vmid row e = ground (arith, first-put t row vmid)

  -- The end of a rollback for a row that is still recycling: back to the warm pool with its age kept
  -- and one more recycle, or on its way out if the rollback failed.
  abbrev pub Finished : Bool → Table → ℕ → String → String → ℕ → ℕ → Table × List Effect → Type 0
  Finished succeeded t vmid node profile since now (u, effects) =
      (cur : Vm) × (first t vmid ≡ some cur)
      × (cur.state ≡ recycling)
      × Replaces db t u vmid (
          if succeeded
          then record cur {
            state = warm;
            pool_kind = warm_kind;
            recycle_count = cur.recycle_count + 1;
            has_recycle_snapshot = true;
            state_since = since;
            updated_at = now;
          }
          else record cur { state = draining; state_since = since; updated_at = now })
      × (effects ≡ (if succeeded then signal_refill else destroy_async vmid node profile) ∷ [])

  -- The end of a rollback on a valid table. If the row is still recycling it returns to the warm pool
  -- when the rollback succeeded, and drains with its destroy queued when it failed. If another
  -- worker has taken the row, nothing is written and nothing is started, in both cases.
  pub finish_rollback-exact :
      (succeeded : Bool) (t : Table) (vmid : ℕ) (node profile : String) (since now : ℕ)
      → IsValid db t
      → let r = finish_rollback db succeeded t vmid node profile since now in
        Finished succeeded t vmid node profile since now r
        ⊎ (((cur : Vm) → first t vmid ≡ some cur → cur.state ≢ recycling) × (r ≡ (t, [])))
  unfolding finish_rollback fallback_destroy recycled enter is_one_of state_eq
  finish_rollback-exact true t vmid node profile since now h =
      elim (update_state-Outcome db t vmid recycling warm (recycled since) now
        (λ x. (refl, refl, refl)) h) [
          | inl (cur, u, c, s, e, z) ↦ rw e (inl (cur, c, ground (arith, s), z, refl))
          | inr (n, e) ↦ rw e (inr (λ cur c s. ground (arith, n cur c, s), refl))
        ]
  finish_rollback-exact false t vmid node profile since now h =
      elim (update_state-Outcome db t vmid recycling draining (set_since since) now
        (λ x. (refl, refl, refl)) h) [
          | inl (cur, u, c, s, e, z) ↦ rw e (inl (cur, c, ground (arith, s), z, refl))
          | inr (n, e) ↦ rw e (inr (λ cur c s. ground (arith, n cur c, s), refl))
        ]

  -- A whole rollback that succeeds, of a recycling row that the other goroutines leave alone between
  -- its two writes: the runner that the row carried is the one to deregister, and the row enters the
  -- warm pool without runner, job, organisation, repository and class, with its identity kept.
  pub rollback_returns :
      (t t_later : Table) (vmid : ℕ) (node profile : String) (now since later : ℕ) (v : Vm)
      → IsValid db t
      → IsValid db t_later
      → first t vmid ≡ some v
      → v.state ≡ recycling
      → first t_later vmid ≡ first (clear_pairing db t vmid now).0 vmid
      → let (w, effects) = finish_rollback db true t_later vmid node profile since later in
        ((clear_pairing db t vmid now).1 ≡ some v.runner_id)
        × (effects ≡ signal_refill ∷ [])
        × (first w vmid
            ≡ some (record v {
              state = warm;
              pool_kind = warm_kind;
              runner_id = 0;
              job_id = 0;
              org = "";
              repo = "";
              priority_class = "";
              recycle_count = v.recycle_count + 1;
              has_recycle_snapshot = true;
              state_since = since;
              updated_at = later;
            }))
  unfolding clear_pairing unpair
  rollback_returns t t_later vmid node profile now since later v h h' f s same =
      let key = first-vmid t vmid v f in
      let row = record (unpair v) { updated_at = now } in
      let written = update_present db t vmid unpair now v (λ x. (refl, refl, refl)) h f in
      let cleared : clear_pairing db t vmid now ≡ (put t row, some v.runner_id) =
        rw (clear_pairing, f, written) refl in
      let at : first t_later vmid ≡ some row =
        same ∙ ap (λ (r : Table × Option ℕ). first r.0 vmid) cleared ∙ at_own_key t vmid row key in
      elim (finish_rollback-exact true t_later vmid node profile since later h') [
        | inr (n, e) ↦ absurd (n row at s)
        | inl (cur, c, r, z, e) ↦
            let one : cur ≡ row = ground (arith, c, at) in
            (
              ap (λ (r : Table × Option ℕ). r.1) cleared,
              e,
              read_back _ vmid cur c z
                  ∙ ap
                      (λ (x : Vm). some (record x {
                        state = warm;
                        pool_kind = warm_kind;
                        recycle_count = x.recycle_count + 1;
                        has_recycle_snapshot = true;
                        state_since = since;
                        updated_at = later;
                      }))
                      one,
            )
      ]
    where
      read_back :
          (u : Table) (k : ℕ) (cur : Vm) {x : Vm}
          → first t_later k ≡ some cur
          → Replaces db t_later u k x
          → first u k ≡ some x
      read_back u k cur {x} c z = ground (arith, z k)
