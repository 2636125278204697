-- ===== src/Pool/Handlers/Teardown.antt =====
-- Concurrent teardown calls for one VM (ForceDestroy, Preempt, MarkCompleted of
-- internal/pool/manager.go), in any order and with any stale reads.
use actions_runner_scaleset.Prelude.{
  ℕ, ◌+◌, ◌≡◌, ◌≤◌, refl, inl, inr, ◌∙◌, Bool, true, false, Option, some, List, [], ◌∷◌, ◌++◌,
  arith, ap, Option-cases, Bool-cases, bit, count, any,
}
use actions_runner_scaleset.Store.{
  Vm, State, Result, assigned, running, recycling, draining, destroying, state_eq,
}
use actions_runner_scaleset.Store.Table.{Memdb, hit}
use actions_runner_scaleset.Store.Read.{is_one_of, get_row}
use actions_runner_scaleset.Store.Write.{enter}
use actions_runner_scaleset.Store.Validity.{IsValid, update_state-IsValid, update_state_in-IsValid}
use actions_runner_scaleset.Store.Guards.{Outcome, update_state_in-Outcome, update_state-Outcome}
use actions_runner_scaleset.Pool.Config.{Config}
use actions_runner_scaleset.Pool.Handlers.{
  Effect, Reply, destroy_async, rollback_async, signal_refill, after_cas, set_since, destroyable,
  should_recycle, force_destroy, preempt_in, complete_in, refused, done, preempt, complete_busy,
  mark_completed, captured,
}

abbrev pub is_destroy : Effect → Bool
is_destroy (destroy_async vmid node profile) = true
is_destroy (rollback_async vmid node name profile) = false
is_destroy signal_refill = false

abbrev pub is_rollback : Effect → Bool
is_rollback (destroy_async vmid node profile) = false
is_rollback (rollback_async vmid node name profile) = true
is_rollback signal_refill = false

abbrev pub destroys : List Effect → ℕ
destroys effects = count is_destroy effects

abbrev pub rollbacks : List Effect → ℕ
rollbacks effects = count is_rollback effects

abbrev pub busy_states : List State
busy_states = assigned ∷ running ∷ []

module _ (db : Memdb) where
  open db use {Table, first}

  -- One call for the VM, with the table that it read and its clocks.
  pub data Call : Type 0 where
    forces : ℕ → Call
    preempts : Table → ℕ → ℕ → Call
    completes : Table → ℕ → ℕ → ℕ → Call

  abbrev pub is_force : Call → Bool
  is_force (forces now) = true
  is_force (preempts t_read since now) = false
  is_force (completes t_read asked since now) = false

  unfoldable pub call : Config → ℕ → Table → Call → Table × List Effect × Reply
  call cfg vmid t (forces now) = force_destroy db t vmid now
  call cfg vmid t (preempts t_read since now) = preempt db t_read t vmid since now
  call cfg vmid t (completes t_read asked since now) =
      mark_completed db cfg t_read t vmid asked since now

  -- The calls in their order of commit, with everything that they start.
  unfoldable pub calls : Config → ℕ → Table → List (Call) → Table × List Effect
  calls cfg vmid t [] = (t, [])
  calls cfg vmid t (c ∷ cs) =
      let (u, effects, r) = call cfg vmid t c in
      let (w, more) = calls cfg vmid u cs in (w, effects ++ more)

  -- 1 if the row at `vmid` is in one of the states, 0 if not or if there is none.
  abbrev pub held_in : List State → Table → ℕ → ℕ
  held_in states t vmid = hit (λ v. is_one_of v.state states) (first t vmid)

  module _ (t : Table) (vmid : ℕ) where
    -- What one call may start, by what it leaves of the row.
    abbrev Owes : Table × List Effect × Reply → Type 0
    Owes (u, effects, r) =
        IsValid db u
        × (destroys effects + held_in destroyable u vmid ≡ held_in destroyable t vmid)
        × (rollbacks effects + held_in busy_states u vmid ≤ held_in busy_states t vmid)

    idle-Owes :
        (effects : List Effect) (r : Reply)
        → IsValid db t
        → destroys effects ≡ 0
        → rollbacks effects ≡ 0
        → Owes (t, effects, r)
    idle-Owes effects r h d k = (h, omega (arith, d), omega (arith, k))

    held_at :
        (u : Table) (v : Vm) (states : List State)
        → first u vmid ≡ some v
        → held_in states u vmid ≡ bit (is_one_of v.state states)
    held_at u v states e = ap (hit (λ x. is_one_of x.state states)) e

    after_cas-Owes :
        (from : List State) (write : Vm → Vm) (r : Table × Result Bool) (effects : List Effect)
        (lost : Reply)
        → ((v : Vm)
            → first t vmid ≡ some v
            → is_one_of v.state from ≡ true
            → (destroys effects + bit (is_one_of (write v).state destroyable)
                ≡ bit (is_one_of v.state destroyable))
              × (rollbacks effects + bit (is_one_of (write v).state busy_states)
                  ≤ bit (is_one_of v.state busy_states)))
        → IsValid db t
        → IsValid db r.0
        → Outcome db t vmid from write r
        → Owes (after_cas r effects lost)
    unfolding count
    after_cas-Owes from write r effects lost pays h h' (inr (n, e)) =
        rw e (idle-Owes [] lost h refl refl)
    after_cas-Owes from write r effects lost pays h h' (inl (cur, u, c, s, e, z)) =
        let at : first u vmid ≡ some (write cur) = ground (arith, z vmid) in
        let (d, k) = pays cur c s in
        rw e (
          rw e at h',
          omega (arith, d, held_at u (write cur) destroyable at, held_at t cur destroyable c),
          omega (arith, k, held_at u (write cur) busy_states at, held_at t cur busy_states c),
        )

module _ (db : Memdb) (cfg : Config) where
  open db use {Table, first, first-vmid}

  force_pays :
      (vmid now : ℕ) (o : Option Vm) (v : Vm)
      → o ≡ some v
      → is_one_of v.state destroyable ≡ true
      → (destroys (captured vmid o) + bit (is_one_of (enter v draining now).state destroyable)
          ≡ bit (is_one_of v.state destroyable))
        × (rollbacks (captured vmid o) + bit (is_one_of (enter v draining now).state busy_states)
            ≤ bit (is_one_of v.state busy_states))
  unfolding is_one_of state_eq count enter
  force_pays vmid now o v e s = rw (e, s) (refl, omega arith)

  force_destroy-Owes :
      (t : Table) (vmid now : ℕ) → IsValid db t → Owes db t vmid (force_destroy db t vmid now)
  unfolding force_destroy enter
  force_destroy-Owes t vmid now h =
      after_cas-Owes db t vmid destroyable (λ v. enter v draining now) _ _ _
        (force_pays vmid now (first t vmid)) h
        (update_state_in-IsValid db t vmid destroyable draining (λ v. v) now h)
        (update_state_in-Outcome db t vmid destroyable draining (λ v. v) now
          (λ v. (refl, refl, refl)) h)

  preempt_in-Owes :
      (t : Table) (target : Vm) (vmid since now : ℕ) (s : State)
      → IsValid db t
      → Owes db t vmid (preempt_in db t target vmid since now s)
  unfolding preempt_in is_one_of state_eq count enter
  preempt_in-Owes t target vmid since now assigned h =
      after_cas-Owes db t vmid (assigned ∷ []) (λ v. set_since since (enter v draining now)) _ _
        refused (λ v e s. ground (arith, s)) h
        (update_state-IsValid db t vmid assigned draining (set_since since) now h)
        (update_state-Outcome db t vmid assigned draining (set_since since) now
          (λ v. (refl, refl, refl)) h)
  preempt_in-Owes t target vmid since now s h = idle-Owes db t vmid [] refused h refl refl

  preempt-Owes :
      (t_read t : Table) (vmid since now : ℕ)
      → IsValid db t
      → Owes db t vmid (preempt db t_read t vmid since now)
  unfolding preempt count get_row
  preempt-Owes t_read t vmid since now h = elim (Option-cases (first t_read vmid)) [
    | inl e ↦ rw (e, preempt, get_row) (idle-Owes db t vmid [] refused h refl refl)
    | inr (target, e) ↦
        rw (e, preempt, get_row) (preempt_in-Owes t target vmid since now target.state h)
  ]

  complete_busy-Owes :
      (t : Table) (target : Vm) (vmid asked since now : ℕ)
      → IsValid db t
      → Owes db t vmid (complete_busy db cfg t target vmid asked since now)
  unfolding complete_busy is_one_of state_eq count enter
  complete_busy-Owes t target vmid asked since now h =
      elim (Bool-cases (should_recycle cfg target asked)) [
        | inl r ↦ rw r (
            after_cas-Owes db t vmid busy_states (λ v. set_since since (enter v recycling now)) _ _
              done (λ v e s. ground (arith, s)) h
              (update_state_in-IsValid db t vmid busy_states recycling (set_since since) now h)
              (update_state_in-Outcome db t vmid busy_states recycling (set_since since) now
                (λ v. (refl, refl, refl)) h))
        | inr r ↦ rw r (
            after_cas-Owes db t vmid busy_states (λ v. set_since since (enter v draining now)) _ _
              done (λ v e s. ground (arith, s)) h
              (update_state_in-IsValid db t vmid busy_states draining (set_since since) now h)
              (update_state_in-Outcome db t vmid busy_states draining (set_since since) now
                (λ v. (refl, refl, refl)) h))
      ]

  complete_in-Owes :
      (t : Table) (target : Vm) (vmid asked since now : ℕ) (s : State)
      → IsValid db t
      → Owes db t vmid (complete_in db cfg t target vmid asked since now s)
  unfolding complete_in count
  complete_in-Owes t target vmid asked since now assigned h =
      complete_busy-Owes t target vmid asked since now h
  complete_in-Owes t target vmid asked since now running h =
      complete_busy-Owes t target vmid asked since now h
  complete_in-Owes t target vmid asked since now recycling h =
      idle-Owes db t vmid (signal_refill ∷ []) done h refl refl
  complete_in-Owes t target vmid asked since now draining h =
      idle-Owes db t vmid (signal_refill ∷ []) done h refl refl
  complete_in-Owes t target vmid asked since now destroying h =
      idle-Owes db t vmid (signal_refill ∷ []) done h refl refl
  complete_in-Owes t target vmid asked since now s h = idle-Owes db t vmid [] done h refl refl

  mark_completed-Owes :
      (t_read t : Table) (vmid asked since now : ℕ)
      → IsValid db t
      → Owes db t vmid (mark_completed db cfg t_read t vmid asked since now)
  unfolding mark_completed count get_row
  mark_completed-Owes t_read t vmid asked since now h = elim (Option-cases (first t_read vmid)) [
    | inl e ↦ rw (e, mark_completed, get_row) (idle-Owes db t vmid [] done h refl refl)
    | inr (target, e) ↦
        rw (e, mark_completed, get_row)
          (complete_in-Owes t target vmid asked since now target.state h)
  ]

  call-Owes :
      (vmid : ℕ) (t : Table) (c : Call db) → IsValid db t → Owes db t vmid (call db cfg vmid t c)
  unfolding call
  call-Owes vmid t (forces now) h = force_destroy-Owes t vmid now h
  call-Owes vmid t (preempts t_read since now) h = preempt-Owes t_read t vmid since now h
  call-Owes vmid t (completes t_read asked since now) h =
      mark_completed-Owes t_read t vmid asked since now h

  count-append :
      (p : Effect → Bool) (xs ys : List Effect) → count p (xs ++ ys) ≡ count p xs + count p ys
  unfolding count
  count-append p [] ys = omega arith
  count-append p (x ∷ xs) ys = omega (arith, count-append p xs ys)

  -- After ForceDestroy the row is gone or on its way out.
  force_settles :
      (t : Table) (vmid now : ℕ)
      → IsValid db t
      → held_in db destroyable (force_destroy db t vmid now).0 vmid ≡ 0
  unfolding force_destroy is_one_of state_eq enter
  force_settles t vmid now h =
      elim (update_state_in-Outcome db t vmid destroyable draining (λ v. v) now
        (λ v. (refl, refl, refl)) h) [
          | inr (n, e) ↦ rw e (elim (Option-cases (first t vmid)) [
            | inl f ↦ ap (hit _) f
            | inr (v, f) ↦ ap (hit _) f ∙ ap bit (n v f)
          ])
          | inl (cur, u, c, s, e, z) ↦
              let at : first u vmid ≡ some (enter cur draining now) = ground (arith, z vmid) in
              rw e (ap (hit _) at)
        ]

  call_settles :
      (t : Table) (vmid : ℕ) (c : Call db)
      → IsValid db t
      → is_force db c ≡ true
      → held_in db destroyable (call db cfg vmid t c).0 vmid ≡ 0
  unfolding call
  call_settles t vmid (forces now) h f = force_settles t vmid now h
  call_settles t vmid (preempts t_read since now) h f = cc
  call_settles t vmid (completes t_read asked since now) h f = cc

  -- The teardown calls for one VM on a valid table, in any order and whatever stale tables Preempt and
  -- MarkCompleted read: a destroy is started exactly when the row has left the states that a teardown
  -- accepts, so at most once; at most one rollback is started, and only if the row was busy; and if
  -- ForceDestroy is among the calls, a row that was in one of those states is destroyed exactly once.
  pub teardown_once :
      (vmid : ℕ) (t : Table) (cs : List (Call db))
      → IsValid db t
      → let (u, effects) = calls db cfg vmid t cs in
        (destroys effects + held_in db destroyable u vmid ≡ held_in db destroyable t vmid)
        × (rollbacks effects + held_in db busy_states u vmid ≤ held_in db busy_states t vmid)
        × (any (is_force db) cs ≡ true → destroys effects ≡ held_in db destroyable t vmid)
  unfolding calls any count
  teardown_once vmid t [] h = (omega arith, omega arith, λ f. cc)
  teardown_once vmid t (c ∷ cs) h =
      let (h', d, r) = call-Owes vmid t c h in
      let (ds, rs, fs) = teardown_once vmid (call db cfg vmid t c).0 cs h' in
      let both =
        count-append is_destroy (call db cfg vmid t c).1
          (calls db cfg vmid (call db cfg vmid t c).0 cs).1 in
      (
        omega (arith, d, ds, both),
        omega (
          arith,
          r,
          rs,
          count-append is_rollback (call db cfg vmid t c).1
              (calls db cfg vmid (call db cfg vmid t c).0 cs).1,
        ),
        λ f. elim (Bool-cases (is_force db c)) [
          | inl y ↦ omega (arith, d, ds, both, call_settles t vmid c h y)
          | inr n ↦ omega (arith, d, both, fs (rw n at f))
        ],
      )
