-- ===== src/Pool/Adoption/Fates.antt =====
-- What adoptOne of internal/pool/manager.go makes of an inherited VM.
use actions_runner_scaleset.Prelude.{
  ℕ, ◌==◌, ◌≡◌, ◌<◌, refl, inl, inr, ◌⊎◌, Bool, true, false, Option, none, some, List, [], ◌∷◌,
  arith, Bool-cases, if◌then◌else◌,
}
use actions_runner_scaleset.Store.{Vm, warm, hot, assigned, running, recycling, ok, state_eq}
use actions_runner_scaleset.Store.Table.{Memdb}
use actions_runner_scaleset.Store.Write.{insert, stamp, commit_row}
use actions_runner_scaleset.Store.Validity.{lacks_index-stamp}
use actions_runner_scaleset.Pool.Config.{Config, RunnerInfo}
use actions_runner_scaleset.Pool.Handlers.{Effect, rollback_async}
use actions_runner_scaleset.Pool.Adoption.{
  OwnedVm, adoption_matrix, runner_id_of, classify_adoption, adoption_profile, adopted_row,
  after_adoption, adopt_one,
}

-- The state and the runner of an inherited VM, and whether its rollback starts.
abbrev pub Fate : Config → OwnedVm → Option Bool → Option RunnerInfo → Vm → List Effect → Type 0
Fate cfg pv none gr row effects = (row.state ≡ hot) × (row.runner_id ≡ 0) × (effects ≡ [])
Fate cfg pv (some false) gr row effects =
    ((cfg.snapshot_recycle ≡ false) × (row.state ≡ warm) × (row.runner_id ≡ 0) × (effects ≡ []))
    ⊎ ((cfg.snapshot_recycle ≡ true)
        × (row.state ≡ recycling)
        × (row.runner_id ≡ runner_id_of gr)
        × (effects ≡ rollback_async pv.vmid pv.node pv.name (adoption_profile cfg pv.profile) ∷ []))
Fate cfg pv (some true) none row effects = (row.state ≡ hot) × (row.runner_id ≡ 0) × (effects ≡ [])
Fate cfg pv (some true) (some r) row effects =
    (row.state ≡ (if r.busy then running else assigned)) × (row.runner_id ≡ r.id) × (effects ≡ [])

module _ (cfg : Config) (pv : OwnedVm) (now : ℕ) (db : Memdb) where
  fate :
      (power : Option Bool) (gr : Option RunnerInfo)
      → Fate cfg pv power gr
          (stamp (adopted_row cfg pv power gr) now)
          (after_adoption db cfg pv power gr (ok tt))
  unfolding adopted_row after_adoption classify_adoption adoption_matrix stamp state_eq
  fate none gr = elim (Bool-cases cfg.snapshot_recycle) [
    | inl e ↦ rw e (refl, refl, refl)
    | inr e ↦ rw e (refl, refl, refl)
  ]
  fate (some false) none = elim (Bool-cases cfg.snapshot_recycle) [
    | inl e ↦ rw e (inr (refl, refl, refl, refl))
    | inr e ↦ rw e (inl (refl, refl, refl, refl))
  ]
  fate (some false) (some r) = elim (Bool-cases cfg.snapshot_recycle) [
    | inl e ↦ rw e (inr (refl, refl, refl, refl))
    | inr e ↦ rw e (inl (refl, refl, refl, refl))
  ]
  fate (some true) none = elim (Bool-cases cfg.snapshot_recycle) [
    | inl e ↦ rw e (refl, refl, refl)
    | inr e ↦ rw e (refl, refl, refl)
  ]
  fate (some true) (some r) = elim (Bool-cases cfg.snapshot_recycle) [
    | inl e ↦ rw e (elim (Bool-cases r.busy) [
      | inl b ↦ rw b (refl, refl, refl)
      | inr b ↦ rw b (refl, refl, refl)
    ])
    | inr e ↦ rw e (elim (Bool-cases r.busy) [
      | inl b ↦ rw b (refl, refl, refl)
      | inr b ↦ rw b (refl, refl, refl)
    ])
  ]

module _ (db : Memdb) where
  open db use {Table, first, put, first-put}

  insert_absent :
      (t : Table) (v : Vm) (now : ℕ)
      → 0 < v.vmid
      → first t v.vmid ≡ none
      → insert db t v now ≡ (put t (stamp v now), ok tt)
  unfolding insert commit_row
  insert_absent t v now p f =
      let positive : (v.vmid == 0) ≡ false = ground arith in
      rw (insert, positive, f, lacks_index-stamp v now) refl

  -- adoptOne for a VM whose VMID has no row: the VM gets a row. A VM whose power state is unknown is
  -- adopted as hot; a stopped one as warm, or in snapshot mode as recycling with its registered runner
  -- and a rollback started; a running one as hot if it has no runner, as running if its runner is
  -- busy and as assigned if not, with the runner's id in both cases. Only a stopped VM is rolled back.
  pub adopt_one-Fate :
      (cfg : Config) (t : Table) (pv : OwnedVm) (power : Option Bool) (gr : Option RunnerInfo)
      (now : ℕ)
      → 0 < pv.vmid
      → first t pv.vmid ≡ none
      → let (u, effects) = adopt_one db cfg t pv power gr now in
        (row : Vm) × (first u pv.vmid ≡ some row) × Fate cfg pv power gr row effects
  unfolding adopt_one adopted_row stamp
  adopt_one-Fate cfg t pv power gr now p f =
      let row = adopted_row cfg pv power gr in
      rw (insert_absent t row now p f) (
        stamp row now,
        ground (arith, first-put t (stamp row now) pv.vmid),
        fate cfg pv now db power gr,
      )
