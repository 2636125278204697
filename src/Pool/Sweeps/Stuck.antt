-- ===== src/Pool/Sweeps/Stuck.antt =====
-- sweepStuckRows of internal/pool/manager.go, one candidate at a time.
use actions_runner_scaleset.Prelude.{
  ℕ, ◌+◌, ◌≡◌, ◌≤◌, ◌<◌, refl, inl, inr, ◌⊎◌, none, some, [], ◌∷◌, arith, Option-cases, Bool-cases,
  ltb,
}
use actions_runner_scaleset.Store.{Vm, draining}
use actions_runner_scaleset.Store.Table.{Memdb}
use actions_runner_scaleset.Store.Validity.{IsValid}
use actions_runner_scaleset.Store.Transitions.{Replaces}
use actions_runner_scaleset.Store.Steps.{Reach-IsValid}
use actions_runner_scaleset.Store.Guards.{update_present, update_missing}
use actions_runner_scaleset.Pool.Handlers.{destroy_async}
use actions_runner_scaleset.Pool.Sweeps.{Others, sweep_rows, stuck_grace}

module _ (db : Memdb) (others : Others db) (clock : ℕ → ℕ) where
  open db use {Table, first, put, first-put, first-vmid}

  replaced :
      (t : Table) (vmid : ℕ) (v : Vm)
      → first t vmid ≡ some v
      → v.vmid ≡ vmid
      → Replaces db t
          (put t (record v { state = draining; updated_at = clock 0; state_since = clock 0 }))
          vmid
          (record v { state = draining; state_since = clock 0; updated_at = clock 0 })
  replaced t vmid v f e k = rw (← e) (first-put t _ k)

  -- sweepStuckRows on one candidate of its listing, on a valid table. A candidate whose UpdatedAt was
  -- within the grace is left alone. For one past the grace, whatever row is at its VMID when the write
  -- happens goes to Draining and its destroy is queued, in whichever state that row is by then, a
  -- running one included; if there is no such row any more nothing happens.
  pub sweep_ignores_state :
      (s : Vm) (t : Table) (start : ℕ)
      → IsValid db t
      → let (u, effects) = sweep_rows db others clock start 0 (s ∷ []) t in
        let seen = (others 0 t).0 in
        ((start ≤ s.updated_at + stuck_grace) × (u ≡ t) × (effects ≡ []))
        ⊎ ((s.updated_at + stuck_grace < start)
            × (((first seen s.vmid ≡ none) × (u ≡ seen) × (effects ≡ []))
                ⊎ ((v : Vm) × (first seen s.vmid ≡ some v)
                    × Replaces db seen u s.vmid
                        (record v { state = draining; state_since = clock 0; updated_at = clock 0 })
                    × (effects ≡ destroy_async s.vmid s.node s.profile ∷ []))))
  unfolding sweep_rows
  sweep_ignores_state s t start h = elim (Bool-cases (ltb (s.updated_at + stuck_grace) start)) [
    | inr e ↦ rw (sweep_rows, e) (inl (ground arith, refl, refl))
    | inl e ↦
        rw (sweep_rows, e)
          (inr (
            ground arith,
            elim (Option-cases (first (others 0 t).0 s.vmid)) [
              | inl f ↦
                  rw
                    (update_missing db (others 0 t).0 s.vmid
                      (λ x. record x { state = draining; state_since = clock 0 }) (clock 0) f)
                    (inl (f, refl, refl))
              | inr (v, f) ↦
                  rw
                    (update_present db (others 0 t).0 s.vmid
                      (λ x. record x { state = draining; state_since = clock 0 }) (clock 0) v
                      (λ x. (refl, refl, refl)) (Reach-IsValid db h (others 0 t).1) f)
                    (inr (
                      v,
                      f,
                      replaced (others 0 t).0 s.vmid v f (first-vmid (others 0 t).0 s.vmid v f),
                      refl,
                    ))
            ],
          ))
  ]
