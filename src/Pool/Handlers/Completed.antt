-- ===== src/Pool/Handlers/Completed.antt =====
-- MarkCompleted of internal/pool/manager.go on every branch.
use actions_runner_scaleset.Prelude.{
  ℕ, ◌≡◌, refl, inl, inr, ◌⊎◌, true, some, List, [], ◌∷◌, Option-cases, Bool-cases, if◌then◌else◌,
}
use actions_runner_scaleset.Store.{
  Vm, State, assigned, running, draining, destroying, recycling, state_eq,
}
use actions_runner_scaleset.Store.Table.{Memdb}
use actions_runner_scaleset.Store.Read.{is_one_of, get_row}
use actions_runner_scaleset.Store.Write.{enter}
use actions_runner_scaleset.Store.Validity.{IsValid}
use actions_runner_scaleset.Store.Transitions.{Replaces}
use actions_runner_scaleset.Store.Guards.{update_state_in-Outcome}
use actions_runner_scaleset.Pool.Config.{Config}
use actions_runner_scaleset.Pool.Handlers.{
  Effect, Reply, done, destroy_async, rollback_async, signal_refill, set_since, complete_in,
  complete_busy, should_recycle, mark_completed,
}

abbrev job_states : List State
job_states = assigned ∷ running ∷ []

abbrev leaving : List State
leaving = recycling ∷ draining ∷ destroying ∷ []

-- The row serves a job.
abbrev pub IsBusy : Vm → Type 0
IsBusy v = is_one_of v.state job_states ≡ true

-- The row has left the job behind already.
abbrev pub IsLeaving : Vm → Type 0
IsLeaving v = is_one_of v.state leaving ≡ true

module _ (db : Memdb) (cfg : Config) where
  open db use {Table, first, first-vmid}

  module _ (t : Table) (seen : Vm) (vmid asked since now : ℕ) where
    -- The row `cur` leaves the job: back to the warm pool by a rollback, or destroyed.
    abbrev pub Completes : Table × List Effect × Reply → Type 0
    Completes (u, effects, r) =
        (cur : Vm) × (first t vmid ≡ some cur)
        × IsBusy cur
        × Replaces db t u vmid (record cur {
          state = if should_recycle cfg seen asked then recycling else draining;
          state_since = since;
          updated_at = now;
        })
        × (effects
            ≡ (if should_recycle cfg seen asked
                then rollback_async seen.vmid seen.node seen.name seen.profile
                else destroy_async seen.vmid seen.node seen.profile)
              ∷ signal_refill
              ∷ [])
        × (r ≡ done)

    abbrev Lost : Table × List Effect × Reply → Type 0
    Lost r = ((cur : Vm) → first t vmid ≡ some cur → ¬ IsBusy cur) × (r ≡ (t, [], done))

    complete_busy-cases :
        IsValid db t
        → Completes (complete_busy db cfg t seen vmid asked since now)
          ⊎ Lost (complete_busy db cfg t seen vmid asked since now)
    unfolding complete_busy enter
    complete_busy-cases h = elim (Bool-cases (should_recycle cfg seen asked)) [
      | inl y ↦
          rw y
            (elim (update_state_in-Outcome db t vmid job_states recycling (set_since since) now
              (λ v. (refl, refl, refl)) h) [
                | inl (cur, u, c, s, e, z) ↦ rw e (inl (cur, c, s, z, refl, refl))
                | inr (n, e) ↦ rw e (inr (λ cur f b. cc (n cur f, b), refl))
              ])
      | inr y ↦
          rw y
            (elim (update_state_in-Outcome db t vmid job_states draining (set_since since) now
              (λ v. (refl, refl, refl)) h) [
                | inl (cur, u, c, s, e, z) ↦ rw e (inl (cur, c, s, z, refl, refl))
                | inr (n, e) ↦ rw e (inr (λ cur f b. cc (n cur f, b), refl))
              ])
    ]

    abbrev Cases : State → Table × List Effect × Reply → Type 0
    Cases s r =
        ((is_one_of s job_states ≡ true) × (Completes r ⊎ Lost r))
        ⊎ ((is_one_of s leaving ≡ true) × (r ≡ (t, signal_refill ∷ [], done)))
        ⊎ ((¬ (is_one_of s job_states ≡ true))
            × (¬ (is_one_of s leaving ≡ true))
            × (r ≡ (t, [], done)))

    complete_in-Cases :
        (s : State) → IsValid db t → Cases s (complete_in db cfg t seen vmid asked since now s)
    unfolding complete_in is_one_of state_eq
    complete_in-Cases assigned h = inl (refl, complete_busy-cases h)
    complete_in-Cases running h = inl (refl, complete_busy-cases h)
    complete_in-Cases recycling h = inr (inl (refl, refl))
    complete_in-Cases draining h = inr (inl (refl, refl))
    complete_in-Cases destroying h = inr (inl (refl, refl))
    complete_in-Cases s h = inr (inr (λ e. cc, λ e. cc, refl))

  -- MarkCompleted on a valid table, with its lookup at an earlier table. If the row was busy at the
  -- lookup and still is, it moves to Recycling and a rollback of the VM starts when shouldRecycle
  -- says so of the row looked up, and it moves to Draining and a destroy starts otherwise; if it was
  -- busy and no longer is, nothing happens. A row that was already leaving only signals a refill, and
  -- a missing row or one in any other state is left alone. No case is an error.
  pub mark_completed-exact :
      (t_read t : Table) (vmid asked since now : ℕ)
      → IsValid db t
      → let r = mark_completed db cfg t_read t vmid asked since now in
        ((seen : Vm) × (first t_read vmid ≡ some seen)
          × IsBusy seen
          × (Completes t seen vmid asked since now r
              ⊎ (((cur : Vm) → first t vmid ≡ some cur → ¬ IsBusy cur) × (r ≡ (t, [], done)))))
        ⊎ ((seen : Vm) × (first t_read vmid ≡ some seen)
            × IsLeaving seen
            × (r ≡ (t, signal_refill ∷ [], done)))
        ⊎ (((seen : Vm) → first t_read vmid ≡ some seen → (¬ IsBusy seen) × (¬ IsLeaving seen))
            × (r ≡ (t, [], done)))
  unfolding mark_completed get_row
  mark_completed-exact t_read t vmid asked since now h = elim (Option-cases (first t_read vmid)) [
    | inl e ↦ rw (e, mark_completed, get_row) (inr (inr (λ v f. absurd (cc), refl)))
    | inr (seen, e) ↦
        rw (e, mark_completed, get_row)
          (elim (complete_in-Cases t seen vmid asked since now seen.state h) [
            | inl (b, p) ↦ inl (seen, refl, b, p)
            | inr (inl (l, p)) ↦ inr (inl (seen, refl, l, p))
            | inr (inr (nb, nl, p)) ↦ inr (inr (λ v f. rw (← some_injective f) (nb, nl), p))
          ])
  ]
    where
      some_injective : {a b : Vm} → some a ≡ some b → a ≡ b
      some_injective {a} {b} e = cc
