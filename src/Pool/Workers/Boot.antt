-- ===== src/Pool/Workers/Boot.antt =====
-- A boot that ends after its VM was force-destroyed, in internal/pool/manager.go, and the poison
-- count of boots that fail.
use actions_runner_scaleset.Prelude.{
  ℕ, ◌+◌, ◌≡◌, ◌≤◌, ◌<◌, refl, inl, inr, ◌⊎◌, false, some, [], ◌∷◌, arith, Bool-cases, leb, ap, ◌∙◌,
}
use actions_runner_scaleset.Store.{Vm, booting, hot, draining, destroying, poison, ok, state_eq}
use actions_runner_scaleset.Store.Table.{Memdb}
use actions_runner_scaleset.Store.Read.{is_one_of}
use actions_runner_scaleset.Store.Write.{enter}
use actions_runner_scaleset.Store.Validity.{IsValid, update-IsValid, update_state_in-IsValid}
use actions_runner_scaleset.Store.Guards.{update_state_in-Outcome, update_present}
use actions_runner_scaleset.Pool.Config.{Config}
use actions_runner_scaleset.Pool.Handlers.{destroy_async, force_destroy, destroyable}
use actions_runner_scaleset.Pool.Workers.{
  goes, boot_threshold, finish_boot, count_attempt, settle_attempt,
}

module _ (db : Memdb) where
  open db use {Table, first, put, first-put, first-vmid}

  at_own_key :
      (t : Table) (vmid : ℕ) (row : Vm) → row.vmid ≡ vmid → first (put t row) vmid ≡ some row
  at_own_key t vmid row e = ground (arith, first-put t row vmid)

  forced :
      (t : Table) (vmid now : ℕ) (v : Vm)
      → IsValid db t
      → first t vmid ≡ some v
      → v.state ≡ booting
      → let (u, effects, r) = force_destroy db t vmid now in
        IsValid db u
        × (effects ≡ destroy_async vmid v.node v.profile ∷ [])
        × (first u vmid ≡ some (enter v draining now))
  unfolding force_destroy enter is_one_of state_eq
  forced t vmid now v h f s =
      elim (update_state_in-Outcome db t vmid destroyable draining (λ x. x) now
        (λ x. (refl, refl, refl)) h) [
          | inr (n, e) ↦ absurd (booting_counts (n v f))
          | inl (cur, u, c, s', e, z) ↦
              let same : cur ≡ v = ground (arith, c, f) in
              let h' = update_state_in-IsValid db t vmid destroyable draining (λ x. x) now h in
              let at : first u vmid ≡ some (enter cur draining now) = ground (arith, z vmid) in
              rw (e, f) (rw e at h', refl, at ∙ ap (λ x. some (enter x draining now)) same)
        ]
    where
      booting_counts : is_one_of v.state destroyable ≡ false → ⊥
      booting_counts n = ground (arith, n, s)

  -- A booting VM is force-destroyed and then its boot worker ends: the destroy of the VM is queued,
  -- but the row is hot again, so that it can be claimed for a job. The boot's write does not look at
  -- the state of the row.
  pub boot_revives :
      (t : Table) (vmid now since later : ℕ) (v : Vm)
      → IsValid db t
      → first t vmid ≡ some v
      → v.state ≡ booting
      → let (u, effects, r) = force_destroy db t vmid now in
        (effects ≡ destroy_async vmid v.node v.profile ∷ [])
        × (first u vmid ≡ some (enter v draining now))
        × (first (finish_boot db u vmid since later).0 vmid
            ≡ some (record v { state = hot; state_since = since; updated_at = later }))
  unfolding finish_boot enter
  boot_revives t vmid now since later v h f s =
      let (h', e, at) = forced t vmid now v h f s in
      let u = (force_destroy db t vmid now).0 in
      (
        e,
        at,
        rw
            (update_present db u vmid (goes hot since) later (enter v draining now)
              (λ x. (refl, refl, refl)) h' at)
            (at_own_key u vmid _ (first-vmid t vmid v f)),
      )

  -- A failed boot of a VM on a valid table, without other writes of its row meanwhile: the attempt is
  -- counted; if the count reaches the threshold of the profile the row is quarantined as poison and
  -- nothing is destroyed, and otherwise the row goes to Destroying and its destroy is queued.
  pub attempt_settled :
      (cfg : Config) (t : Table) (vmid now since later : ℕ) (v : Vm)
      → IsValid db t
      → first t vmid ≡ some v
      → let counted = record v { boot_attempts = v.boot_attempts + 1; updated_at = now } in
        let u = (count_attempt db t vmid now).0 in
        let (w, effects) = settle_attempt db cfg u v.profile counted since later in
        ((count_attempt db t vmid now).1 ≡ ok counted)
        × (((boot_threshold cfg v.profile ≤ v.boot_attempts + 1)
              × (first w vmid
                  ≡ some
                      (record counted { state = poison; state_since = since; updated_at = later }))
              × (effects ≡ []))
            ⊎ ((v.boot_attempts + 1 < boot_threshold cfg v.profile)
                × (first w vmid
                    ≡ some (record counted {
                      state = destroying;
                      state_since = since;
                      updated_at = later;
                    }))
                × (effects ≡ destroy_async vmid v.node v.profile ∷ [])))
  unfolding count_attempt settle_attempt
  attempt_settled cfg t vmid now since later v h f =
      let key = first-vmid t vmid v f in
      let counted = record v { boot_attempts = v.boot_attempts + 1; updated_at = now } in
      let u = put t counted in
      let first_write =
        update_present db t vmid (λ x. record x { boot_attempts = x.boot_attempts + 1 }) now v
          (λ x. (refl, refl, refl)) h f in
      let at_v : first u v.vmid ≡ some counted = at_own_key t v.vmid counted refl in
      let h' : IsValid db u =
        rw first_write at (
          update-IsValid db t vmid (λ x. record x { boot_attempts = x.boot_attempts + 1 }) now h) in
      let poisoned =
        update_present db u v.vmid (goes poison since) later counted (λ x. (refl, refl, refl)) h'
          at_v in
      let destroyed =
        update_present db u v.vmid (goes destroying since) later counted (λ x. (refl, refl, refl))
          h' at_v in
      rw (first_write) (
        refl,
        elim (Bool-cases (leb (boot_threshold cfg v.profile) (v.boot_attempts + 1))) [
          | inl e ↦ rw (e, poisoned) (inl (ground arith, at_own_key u vmid _ key, refl))
          | inr e ↦
              rw (e, destroyed)
                (inr (
                  ground arith,
                  at_own_key u vmid _ key,
                  ap (λ k. destroy_async k v.node v.profile ∷ []) key,
                ))
        ],
      )
