-- ===== src/Store/Transitions.antt =====
-- The compare-and-set writes of internal/store/store.go, and their interleavings as steps.
use actions_runner_scaleset.Prelude.{
  ℕ, ◌==◌, ◌≡◌, refl, ap, [], ◌∷◌, inl, inr, ◌⊎◌, Bool, true, false, some, List, arith,
  Option-cases, Bool-cases, if◌then◌else◌,
}
use actions_runner_scaleset.Store.{Vm, State, Result, ok, err, immutable_field_changed, state_eq}
use actions_runner_scaleset.Store.Table.{Memdb}
use actions_runner_scaleset.Store.Read.{is_one_of}
use actions_runner_scaleset.Store.Write.{
  enforce_immutable, enter, commit_row, write_transition, update_state, update_state_in,
}
use actions_runner_scaleset.Store.Lookup.{
  SameIdentity, enforce_immutable-SameIdentity, SameIdentity-enforce_immutable,
}
use actions_runner_scaleset.Store.Validity.{IsValid, IsProper-SameIdentity}

module _ (db : Memdb) where
  open db use {Table, first, put, first-put, first-vmid}

  -- After: the row at `vmid` is `row`, and every other row is as it was.
  abbrev pub Replaces : Table → Table → ℕ → Vm → Type 0
  Replaces t u vmid row = (k : ℕ) → first u k ≡ (if vmid == k then some row else first t k)

  module _ (t : Table) (vmid : ℕ) (to : State) (mutate : Vm → Vm) (now : ℕ) where
    -- The row that the transition writes.
    abbrev pub moved : Vm → Vm
    moved cur = mutate (enter cur to now)

    -- It is written, or the mutator is rejected and nothing is.
    abbrev pub Written : Vm → Table × Result Bool → Type 0
    Written cur (u, r) =
        (SameIdentity cur (moved cur) × (r ≡ ok true) × Replaces t u vmid (moved cur))
        ⊎ ((¬ SameIdentity cur (moved cur)) × (r ≡ err immutable_field_changed) × (u ≡ t))

    put-Replaces : (row : Vm) → vmid ≡ row.vmid → Replaces t (put t row) vmid row
    put-Replaces row e k = rw e (first-put t row k)

    write_transition-Written :
        (cur : Vm)
        → IsValid db t
        → first t vmid ≡ some cur
        → Written cur (write_transition db t cur to mutate now)
    unfolding write_transition commit_row
    write_transition-Written cur h f = elim (Bool-cases (enforce_immutable cur (moved cur))) [
      | inl s ↦
          let same = enforce_immutable-SameIdentity cur (moved cur) s in
          let proper = IsProper-SameIdentity cur (moved cur) same (h.proper vmid cur f) in
          let at : vmid ≡ (moved cur).vmid = ground (arith, first-vmid t vmid cur f, same.0) in
          rw (s, proper.1) (inl (same, refl, put-Replaces (moved cur) at))
      | inr s ↦
          rw s
            (inr (λ same. cc (s, SameIdentity-enforce_immutable cur (moved cur) same), refl, refl))
    ]

    -- UpdateStateIn on a valid table: the transition is applied exactly when the row is there, its
    -- state is one of `from`, and the mutator keeps VMID, Profile and CreatedAt; it then writes that
    -- one row. Otherwise the table is unchanged, the result is false when the row is missing or in
    -- another state, and the immutable-field error when the mutator is rejected.
    pub update_state_in-exact :
        (from : List State)
        → IsValid db t
        → let r = update_state_in db t vmid from to mutate now in
          ((cur : Vm) × (first t vmid ≡ some cur)
            × (is_one_of cur.state from ≡ true)
            × Written cur r)
          ⊎ (((cur : Vm) → first t vmid ≡ some cur → is_one_of cur.state from ≡ false)
              × (r ≡ (t, ok false)))
    unfolding update_state_in
    update_state_in-exact from h = elim (Option-cases (first t vmid)) [
      | inl e ↦ inr (λ cur f. cc, rw (e, update_state_in) refl)
      | inr (cur, e) ↦ elim (Bool-cases (is_one_of cur.state from)) [
        | inl s ↦ inl (cur, e, s, rw (e, update_state_in, s) (write_transition-Written cur h e))
        | inr s ↦ inr (
          λ other f.
              ground (arith, s, ap (λ (v : Vm). is_one_of v.state from) (same cur other e f)),
          rw (e, update_state_in, s) refl,
        )
      ]
    ]
      where
        same : (a b : Vm) → first t vmid ≡ some a → first t vmid ≡ some b → a ≡ b
        same a b p q = cc

    -- UpdateState is UpdateStateIn at the one state `from`.
    pub update_state-eq-in :
        (from : State)
        → update_state db t vmid from to mutate now
          ≡ update_state_in db t vmid (from ∷ []) to mutate now
    unfolding update_state update_state_in is_one_of state_eq
    update_state-eq-in from = ground arith
