-- ===== src/Store/Validity.antt =====
-- The well-formedness of the table of internal/store, under every interleaving of its transactions.
use actions_runner_scaleset.Prelude.{
  ℕ, ◌==◌, ◌≡◌, ◌<◌, refl, inl, inr, true, false, some, List, str_eq, arith, eq_iff, Option-cases,
  Bool-cases,
}
use actions_runner_scaleset.Store.{Vm, State, state_eq}
use actions_runner_scaleset.Store.Table.{Memdb, lacks_index}
use actions_runner_scaleset.Store.Read.{is_one_of}
use actions_runner_scaleset.Store.Write.{
  enforce_immutable, stamp, enter, commit_row, insert, delete, write_update, update,
  write_transition, update_state, update_state_in,
}
use actions_runner_scaleset.Store.Lookup.{
  SameIdentity, enforce_immutable-SameIdentity, first-commit_row, first-delete,
}

-- What Insert ensures of a row.
abbrev pub IsProper : Vm → Type 0
IsProper v = (0 < v.vmid) × (lacks_index v ≡ false)

pub IsProper-SameIdentity : (v w : Vm) → SameIdentity v w → IsProper v → IsProper w
unfolding lacks_index
IsProper-SameIdentity v w s h = ground (arith, eq_iff v.profile "", eq_iff w.profile "")

pub lacks_index-stamp : (v : Vm) (now : ℕ) → lacks_index (stamp v now) ≡ false
unfolding lacks_index stamp
lacks_index-stamp v now = elim (Bool-cases (str_eq v.profile "")) [
  | inl e ↦ rw e refl
  | inr e ↦ rw e e
]

stamp-IsProper : (v : Vm) (now : ℕ) → (v.vmid == 0) ≡ false → IsProper (stamp v now)
unfolding stamp
stamp-IsProper v now h = (ground arith, lacks_index-stamp v now)

module _ (db : Memdb) where
  open db use {Table, first, put, first-put}

  -- Every row has a positive VMID and can be found by its profile.
  pub record IsValid (t : Table) : Type 0 where
    pub proper : (k : ℕ) (v : Vm) → first t k ≡ some v → IsProper v

  pub put-IsValid : (t : Table) (row : Vm) → IsValid t → IsProper row → IsValid (put t row)
  put-IsValid t row h p = record {
    proper = λ k v e. ground (arith, first-put t row k, h.proper k v);
  }

  pub commit_row-IsValid {ℓ} :
      {A : Type ℓ} (t : Table) (row : Vm) (a : A)
      → IsValid t
      → IsProper row
      → IsValid (commit_row db t row a).0
  commit_row-IsValid t row a h p = record {
    proper = λ k v e. ground (arith, first-commit_row db t row a k, h.proper k v);
  }

  pub insert-IsValid : (t : Table) (v : Vm) (now : ℕ) → IsValid t → IsValid (insert db t v now).0
  unfolding insert
  insert-IsValid t v now h = elim (Bool-cases (v.vmid == 0)) [
    | inl z ↦ rw z h
    | inr z ↦ rw z (elim (Option-cases (first t v.vmid)) [
      | inl e ↦ rw (e, insert) (commit_row-IsValid t (stamp v now) tt h (stamp-IsProper v now z))
      | inr (w, e) ↦ rw (e, insert) h
    ])
  ]

  pub delete-IsValid : (t : Table) (vmid : ℕ) → IsValid t → IsValid (delete db t vmid)
  delete-IsValid t vmid h = record {
    proper = λ k v e. ground (arith, first-delete db t vmid k, h.proper k v);
  }

  pub update-IsValid :
      (t : Table) (vmid : ℕ) (mutate : Vm → Vm) (now : ℕ)
      → IsValid t
      → IsValid (update db t vmid mutate now).0
  unfolding update
  update-IsValid t vmid mutate now h = elim (Option-cases (first t vmid)) [
    | inl e ↦ rw (e, update) h
    | inr (v, e) ↦ elim (Bool-cases (enforce_immutable v (mutate v))) [
      | inl s ↦
          rw (e, update, write_update, s)
            (commit_row-IsValid t (record (mutate v) { updated_at = now })
              (record (mutate v) { updated_at = now }) h
              (IsProper-SameIdentity v _ (enforce_immutable-SameIdentity v (mutate v) s)
                (h.proper vmid v e)))
      | inr s ↦ rw (e, update, write_update, s) h
    ]
  ]

  write_transition-IsValid :
      (t : Table) (k : ℕ) (v : Vm) (to : State) (mutate : Vm → Vm) (now : ℕ)
      → IsValid t
      → first t k ≡ some v
      → IsValid (write_transition db t v to mutate now).0
  unfolding write_transition
  write_transition-IsValid t k v to mutate now h e =
      elim (Bool-cases (enforce_immutable v (mutate (enter v to now)))) [
        | inl s ↦ rw s (
            commit_row-IsValid t (mutate (enter v to now)) true h
              (IsProper-SameIdentity v _ (enforce_immutable-SameIdentity v _ s) (h.proper k v e)))
        | inr s ↦ rw s h
      ]

  pub update_state-IsValid :
      (t : Table) (vmid : ℕ) (from to : State) (mutate : Vm → Vm) (now : ℕ)
      → IsValid t
      → IsValid (update_state db t vmid from to mutate now).0
  unfolding update_state
  update_state-IsValid t vmid from to mutate now h = elim (Option-cases (first t vmid)) [
    | inl e ↦ rw (e, update_state) h
    | inr (v, e) ↦ elim (Bool-cases (state_eq v.state from)) [
      | inl s ↦ rw (e, update_state, s) (write_transition-IsValid t vmid v to mutate now h e)
      | inr s ↦ rw (e, update_state, s) h
    ]
  ]

  pub update_state_in-IsValid :
      (t : Table) (vmid : ℕ) (from : List State) (to : State) (mutate : Vm → Vm) (now : ℕ)
      → IsValid t
      → IsValid (update_state_in db t vmid from to mutate now).0
  unfolding update_state_in
  update_state_in-IsValid t vmid from to mutate now h = elim (Option-cases (first t vmid)) [
    | inl e ↦ rw (e, update_state_in) h
    | inr (v, e) ↦ elim (Bool-cases (is_one_of v.state from)) [
      | inl s ↦ rw (e, update_state_in, s) (write_transition-IsValid t vmid v to mutate now h e)
      | inr s ↦ rw (e, update_state_in, s) h
    ]
  ]
