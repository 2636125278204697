-- ===== src/Store/Guards.antt =====
-- The compare-and-set writes of internal/store/store.go for mutators that keep the immutable
-- fields: the two outcomes, and the rows that they spare; and Update of a row that is there.
use actions_runner_scaleset.Prelude.{
  ℕ, ◌==◌, ◌≡◌, refl, none, [], ◌∷◌, inl, inr, ◌⊎◌, Bool, true, false, some, List, arith,
  Bool-cases,
}
use actions_runner_scaleset.Store.{Vm, State, Result, ok, err, not_found}
use actions_runner_scaleset.Store.Table.{Memdb}
use actions_runner_scaleset.Store.Read.{is_one_of}
use actions_runner_scaleset.Store.Write.{
  update, write_update, commit_row, update_state, update_state_in, enter,
}
use actions_runner_scaleset.Store.Lookup.{SameIdentity, SameIdentity-enforce_immutable}
use actions_runner_scaleset.Store.Validity.{IsValid, IsProper-SameIdentity}
use actions_runner_scaleset.Store.Transitions.{update_state_in-exact, update_state-eq-in, Replaces}

module _ (db : Memdb) where
  open db use {Table, first, put, first-vmid}

  -- The transition was applied to `cur`, or nothing was written.
  abbrev pub Outcome : Table → ℕ → List State → (Vm → Vm) → Table × Result Bool → Type 0
  Outcome t vmid from write r =
      ((cur : Vm) × (u : Table) × (first t vmid ≡ some cur)
        × (is_one_of cur.state from ≡ true)
        × (r ≡ (u, ok true))
        × Replaces db t u vmid (write cur))
      ⊎ (((cur : Vm) → first t vmid ≡ some cur → is_one_of cur.state from ≡ false)
          × (r ≡ (t, ok false)))

  pub update_state_in-Outcome :
      (t : Table) (vmid : ℕ) (from : List State) (to : State) (mutate : Vm → Vm) (now : ℕ)
      → ((v : Vm) → SameIdentity v (mutate (enter v to now)))
      → IsValid db t
      → Outcome t vmid from
          (λ v. mutate (enter v to now))
          (update_state_in db t vmid from to mutate now)
  update_state_in-Outcome t vmid from to mutate now keeps h =
      elim (update_state_in-exact db t vmid to mutate now from h) [
        | inl (cur, f, s, inl (same, r, z)) ↦ inl (cur, _, f, s, ground (arith, r), z)
        | inl (cur, f, s, inr (n, r, z)) ↦ absurd (n (keeps cur))
        | inr x ↦ inr x
      ]

  pub update_state-Outcome :
      (t : Table) (vmid : ℕ) (from to : State) (mutate : Vm → Vm) (now : ℕ)
      → ((v : Vm) → SameIdentity v (mutate (enter v to now)))
      → IsValid db t
      → Outcome t vmid
          (from ∷ [])
          (λ v. mutate (enter v to now))
          (update_state db t vmid from to mutate now)
  update_state-Outcome t vmid from to mutate now keeps h =
      rw (update_state-eq-in db t vmid to mutate now from)
        (update_state_in-Outcome t vmid (from ∷ []) to mutate now keeps h)

  -- A row in no accepted state is as it was.
  pub Outcome-spares :
      (t : Table) (vmid : ℕ) (from : List State) (write : Vm → Vm) (r : Table × Result Bool)
      → Outcome t vmid from write r
      → (k : ℕ) (v : Vm) → first t k ≡ some v
      → is_one_of v.state from ≡ false
      → first r.0 k ≡ some v
  Outcome-spares t vmid from write r (inr (n, e)) k v f s = rw e f
  Outcome-spares t vmid from write r (inl (cur, u, c, s', e, z)) k v f s =
      rw e
        (elim (Bool-cases (vmid == k)) [ inl p ↦ absurd (differ p) | inr p ↦ ground (arith, z k) ])
    where
      differ : (vmid == k) ≡ true → ⊥
      differ p =
          let same : vmid ≡ k = ground arith in
          let at : first t k ≡ some cur = rw same at c in
          let one : v ≡ cur = ground (arith, at) in cc (one, s, s')

  -- An update of a row that is there, by a mutator that keeps the immutable fields.
  pub update_present :
      (t : Table) (vmid : ℕ) (mutate : Vm → Vm) (now : ℕ) (cur : Vm)
      → ((x : Vm) → SameIdentity x (mutate x))
      → IsValid db t
      → first t vmid ≡ some cur
      → let row = record (mutate cur) { updated_at = now } in
        update db t vmid mutate now ≡ (put t row, ok row)
  unfolding update write_update commit_row
  update_present t vmid mutate now cur keeps h f =
      let row = record (mutate cur) { updated_at = now } in
      rw
        (
          f,
          update,
          SameIdentity-enforce_immutable cur (mutate cur) (keeps cur),
          (IsProper-SameIdentity cur row (keeps cur) (h.proper vmid cur f)).1,
        )
        refl

  pub update_missing :
      (t : Table) (vmid : ℕ) (mutate : Vm → Vm) (now : ℕ)
      → first t vmid ≡ none
      → update db t vmid mutate now ≡ (t, err not_found)
  unfolding update
  update_missing t vmid mutate now f = rw (f, update) refl
