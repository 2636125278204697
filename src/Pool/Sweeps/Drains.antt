-- ===== src/Pool/Sweeps/Drains.antt =====
-- The loop of shrinkHotPool and shrinkWarmPool of internal/pool/manager.go, when no other goroutine
-- writes meanwhile.
use Prim.Native.Nat.{min}
use mathlib.Core.List.{append-nil}
use actions_runner_scaleset.Prelude.{
  length-filter, ℕ, ◌+◌, ◌-◌, ◌≡◌, ◌≢◌, ◌≤◌, ◌<◌, refl, inl, inr, ◌∙◌, ap, subst, Bool, true, false,
  some, List, [], ◌∷◌, String, arith, All, All-of-In, length, count, bit, filter, leb, Bool-cases,
}
use actions_runner_scaleset.Store.{Vm, State, draining, ok, state_eq}
use actions_runner_scaleset.Store.Table.{Memdb, by_id, by_profile_state, selects, hit}
use actions_runner_scaleset.Store.Read.{count_by_profile_state, list_by_profile_and_states}
use actions_runner_scaleset.Store.Write.{update_state, write_transition, commit_row, enter}
use actions_runner_scaleset.Store.Lookup.{SameIdentity, SameIdentity-enforce_immutable}
use actions_runner_scaleset.Store.Rows.{In-get, length-get}
use actions_runner_scaleset.Store.Validity.{IsValid, IsProper-SameIdentity, update_state-IsValid}
use actions_runner_scaleset.Store.Bursts.{DistinctVms}
use actions_runner_scaleset.Store.Steps.{here}
use actions_runner_scaleset.Pool.Sweeps.{Others, drain_rows, sort_by_age}
use actions_runner_scaleset.Pool.Sweeps.Order.{
  sort_by_age-All, sort_by_age-DistinctVms, length-sort_by_age, listed_distinct,
}

module _ (db : Memdb) where
  open db use {Table, first, get, put, first-put, first-vmid, get-filter, count-put}

  -- No other goroutine writes.
  abbrev pub quiet : Others db
  quiet i t = (t, here)

  update_state_present :
      (t : Table) (row : Vm) (from : State) (mutate : Vm → Vm) (now : ℕ)
      → ((x : Vm) → SameIdentity x (mutate (enter x draining now)))
      → IsValid db t
      → first t row.vmid ≡ some row
      → state_eq row.state from ≡ true
      → update_state db t row.vmid from draining mutate now
        ≡ (put t (mutate (enter row draining now)), ok true)
  unfolding update_state write_transition commit_row
  update_state_present t row from mutate now keeps h f s =
      let next = mutate (enter row draining now) in
      rw
        (
          f,
          update_state,
          s,
          SameIdentity-enforce_immutable row next (keeps row),
          (IsProper-SameIdentity row next (keeps row) (h.proper row.vmid row f)).1,
        )
        refl

  module _ (profile : String) (from : State) (clock : ℕ → ℕ) (mutate : ℕ → Vm → Vm)
      (keeps : (i : ℕ) (x : Vm) → SameIdentity x (mutate i (enter x draining (clock i))))
      (drains : (i : ℕ) (x : Vm) → (mutate i (enter x draining (clock i))).state ≡ draining)
      (idle : state_eq draining from ≡ false) where
    abbrev listed : Vm → Bool
    listed v = selects (by_profile_state profile from) v

    abbrev IsListed : Table → Vm → Type 0
    IsListed t v = (first t v.vmid ≡ some v) × (listed v ≡ true)

    -- A row that is drained is no longer listed.
    drained_row : (i : ℕ) (x : Vm) → listed (mutate i (enter x draining (clock i))) ≡ false
    unfolding selects
    drained_row i x = ground (arith, drains i x, idle)

    drain_one :
        (t : Table) (i : ℕ) (row : Vm)
        → IsValid db t
        → IsListed t row
        → let u = put t (mutate i (enter row draining (clock i))) in
          (update_state db t row.vmid from draining (mutate i) (clock i) ≡ (u, ok true))
          × IsValid db u
          × (count listed (get u by_id) + 1 ≡ count listed (get t by_id))
    unfolding selects
    drain_one t i row h (f, s) =
        let w = mutate i (enter row draining (clock i)) in
        let e =
          update_state_present t row from (mutate i) (clock i) (keeps i) h f (ground (arith, s)) in
        let held : first t w.vmid ≡ some row = ground (arith, f, (keeps i row).0) in
        (
          e,
          rw e at (update_state-IsValid db t row.vmid from draining (mutate i) (clock i) h),
          omega (
            arith,
            count-put t w listed,
            ap (hit listed) held,
            ap bit s,
            ap bit (drained_row i row),
          ),
        )

    still-IsListed :
        (t : Table) (w : Vm) (rows : List Vm)
        → All (λ v. v.vmid ≢ w.vmid) rows
        → All (IsListed t) rows
        → All (IsListed (put t w)) rows
    still-IsListed t w [] n l = tt
    still-IsListed t w (v ∷ rows) n l =
        ((ground (arith, first-put t w v.vmid, n.0, l.0.0), l.0.1), still-IsListed t w rows n.1 l.1)

    drain_counts :
        (rows : List Vm) (t : Table) (excess killed i : ℕ)
        → IsValid db t
        → All (IsListed t) rows
        → DistinctVms db rows
        → let (u, effects) = drain_rows db quiet clock profile from mutate excess killed i rows t in
          (length effects ≡ min (excess - killed) (length rows))
          × (count listed (get u by_id) + length effects ≡ count listed (get t by_id))
    unfolding drain_rows
    drain_counts [] t excess killed i h l d = (omega arith, omega arith)
    drain_counts (row ∷ rows) t excess killed i h l d = elim (Bool-cases (leb excess killed)) [
      | inl e ↦
          let le : excess ≤ killed = ground arith in
          rw (drain_rows, e) (omega (arith, le), omega arith)
      | inr e ↦
          let w = mutate i (enter row draining (clock i)) in
          let step = drain_one t i row h l.0 in
          let same : row.vmid ≡ w.vmid = ground (arith, (keeps i row).0) in
          let more : killed < excess = ground arith in
          let rest =
            drain_counts rows (put t w) excess (killed + 1) (i + 1) step.1
              (still-IsListed t w rows (subst (λ (k : ℕ). All (λ v. v.vmid ≢ k) rows) same d.0) l.1)
              d.1 in
          rw (drain_rows, e, step.0) (omega (arith, rest.0, more), omega (arith, rest.1, step.2))
    ]

  listing :
      (t : Table) (profile : String) (s : State)
      → list_by_profile_and_states db t profile (s ∷ [])
        ≡ filter (selects (by_profile_state profile s)) (get t by_id)
  unfolding list_by_profile_and_states
  listing t profile s =
      append-nil (get t (by_profile_state profile s)) ∙ get-filter t (by_profile_state profile s)

  pub drained_to :
      (profile : String) (from : State) (clock : ℕ → ℕ) (mutate : ℕ → Vm → Vm) (t : Table)
      (target : ℕ)
      → ((i : ℕ) (x : Vm) → SameIdentity x (mutate i (enter x draining (clock i))))
      → ((i : ℕ) (x : Vm) → (mutate i (enter x draining (clock i))).state ≡ draining)
      → state_eq draining from ≡ false
      → IsValid db t
      → let before = count_by_profile_state db t profile from in
        let (u, effects) =
          drain_rows db quiet clock profile from mutate
            (before - target)
            0
            0
            (sort_by_age (list_by_profile_and_states db t profile (from ∷ [])))
            t in
        (count_by_profile_state db u profile from + (before - target) ≡ before)
        × (length effects ≡ before - target)
  unfolding count_by_profile_state
  drained_to profile from clock mutate t target keeps drains idle h =
      let p = selects (by_profile_state profile from) in
      let rows = filter p (get t by_id) in
      let size = length-get db t (by_profile_state profile from) in
      let drains_all =
        drain_counts profile from clock mutate keeps drains idle (sort_by_age rows) t
          (count p (get t by_id) - target) 0 0 h
          (sort_by_age-All (IsListed profile from clock mutate keeps drains idle t) rows (
            All-of-In (IsListed profile from clock mutate keeps drains idle t) rows (λ v m.
              (In-get db t (by_profile_state profile from) v).0
                (rw (get-filter t (by_profile_state profile from)) m))))
          (sort_by_age-DistinctVms db rows (listed_distinct db t p)) in
      let long = length-sort_by_age rows in
      rw (listing t profile from, size)
        (
          omega (
            arith,
            drains_all.0,
            drains_all.1,
            long,
            length-filter p (get t by_id),
            length-get db
                (drain_rows db quiet clock profile from mutate (count p (get t by_id) - target) 0 0
                  (sort_by_age rows) t).0
                (by_profile_state profile from),
          ),
          omega (arith, drains_all.0, long, length-filter p (get t by_id)),
        )
