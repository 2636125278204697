-- ===== src/Pool/Handlers/Spares.antt =====
-- The handlers of internal/pool/manager.go that must not disturb a running job.
use actions_runner_scaleset.Prelude.{
  ℕ, ◌≡◌, ◌≢◌, refl, inl, inr, ◌⊎◌, some, List, [], ◌∷◌, arith, Option-cases,
}
use actions_runner_scaleset.Store.{Vm, State, assigned, draining, state_eq}
use actions_runner_scaleset.Store.Table.{Memdb}
use actions_runner_scaleset.Store.Read.{is_one_of, get_row}
use actions_runner_scaleset.Store.Write.{enter}
use actions_runner_scaleset.Store.Validity.{IsValid}
use actions_runner_scaleset.Store.Transitions.{Replaces}
use actions_runner_scaleset.Store.Guards.{update_state-Outcome}
use actions_runner_scaleset.Pool.Handlers.{
  Effect, Reply, done, refused, destroy_async, set_since, preempt_in, preempt,
}

module _ (db : Memdb) where
  open db use {Table, first, first-vmid}

  abbrev Preempted : Table → Vm → ℕ → ℕ → ℕ → Table × List Effect × Reply → Type 0
  Preempted t seen vmid since now (u, effects, r) =
      (cur : Vm) × (first t vmid ≡ some cur)
      × (cur.state ≡ assigned)
      × Replaces db t u vmid
          (record cur { state = draining; state_since = since; updated_at = now })
      × (effects ≡ destroy_async vmid seen.node seen.profile ∷ [])
      × (r ≡ done)

  preempt_in-cases :
      (t : Table) (seen : Vm) (vmid since now : ℕ) (s : State)
      → IsValid db t
      → ((s ≡ assigned) × Preempted t seen vmid since now (preempt_in db t seen vmid since now s))
        ⊎ (((s ≢ assigned) ⊎ ((cur : Vm) → first t vmid ≡ some cur → cur.state ≢ assigned))
            × (preempt_in db t seen vmid since now s ≡ (t, [], refused)))
  unfolding preempt_in enter is_one_of state_eq
  preempt_in-cases t seen vmid since now assigned h =
      elim (update_state-Outcome db t vmid assigned draining (set_since since) now
        (λ v. (refl, refl, refl)) h) [
          | inr (n, e) ↦ inr (inr (λ cur f a. ground (arith, n cur f, a)), rw e refl)
          | inl (cur, u, c, s, e, z) ↦ inl (refl, rw e (cur, c, ground (arith, s), z, refl, refl))
        ]
  preempt_in-cases t seen vmid since now s h = inr (inl (λ e. cc), refl)

  -- Preempt on a valid table, with its lookup at an earlier table: it acts exactly when the row was
  -- assigned at the lookup and still is at the write. It then moves that row to Draining, starts the
  -- destroy of the VM that it looked up and succeeds; in every other case it is refused, writes
  -- nothing and starts nothing. A running row is never touched.
  pub preempt-exact :
      (t_read t : Table) (vmid since now : ℕ)
      → IsValid db t
      → let (u, effects, r) = preempt db t_read t vmid since now in
        ((seen : Vm) × (first t_read vmid ≡ some seen)
          × (seen.state ≡ assigned)
          × (cur : Vm) × (first t vmid ≡ some cur)
          × (cur.state ≡ assigned)
          × Replaces db t u vmid
              (record cur { state = draining; state_since = since; updated_at = now })
          × (effects ≡ destroy_async vmid seen.node seen.profile ∷ [])
          × (r ≡ done))
        ⊎ ((((seen : Vm) → first t_read vmid ≡ some seen → seen.state ≢ assigned)
              ⊎ ((cur : Vm) → first t vmid ≡ some cur → cur.state ≢ assigned))
            × (u ≡ t)
            × (effects ≡ [])
            × (r ≡ refused))
  unfolding preempt get_row
  preempt-exact t_read t vmid since now h = elim (Option-cases (first t_read vmid)) [
    | inl e ↦ rw (e, preempt, get_row) (inr (inl (λ v f. absurd (cc)), refl, refl, refl))
    | inr (seen, e) ↦
        rw (e, preempt, get_row)
          (elim (preempt_in-cases t seen vmid since now seen.state h) [
            | inl (s, (cur, c, a, z, es, r)) ↦ inl (seen, refl, s, cur, c, a, z, es, r)
            | inr (inl n, p) ↦
                rw p (inr (inl (λ v f a. n (ground (arith, f, a))), refl, refl, refl))
            | inr (inr n, p) ↦ rw p (inr (inr n, refl, refl, refl))
          ])
  ]
