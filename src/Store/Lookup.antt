-- ===== src/Store/Lookup.antt =====
-- What a lookup finds after each write of internal/store/store.go.
use actions_runner_scaleset.Prelude.{
  ℕ, ◌==◌, ◌≡◌, inl, inr, Option-cases, none, true, some, arith, eq_iff, if◌then◌else◌,
}
use actions_runner_scaleset.Store.{Vm}
use actions_runner_scaleset.Store.Table.{Memdb, lacks_index}
use actions_runner_scaleset.Store.Write.{enforce_immutable, commit_row, delete}

-- The fields that an update may not change.
abbrev pub SameIdentity : Vm → Vm → Type 0
SameIdentity v w = (v.vmid ≡ w.vmid) × (v.profile ≡ w.profile) × (v.created_at ≡ w.created_at)

pub enforce_immutable-SameIdentity : (v w : Vm) → enforce_immutable v w ≡ true → SameIdentity v w
unfolding enforce_immutable
enforce_immutable-SameIdentity v w h = ground (arith, eq_iff v.profile w.profile)

pub SameIdentity-enforce_immutable : (v w : Vm) → SameIdentity v w → enforce_immutable v w ≡ true
unfolding enforce_immutable
SameIdentity-enforce_immutable v w h = ground (arith, eq_iff v.profile w.profile)

module _ (db : Memdb) where
  open db use {Table, first, first-put, first-remove, first-vmid}

  pub first-commit_row {ℓ} :
      {A : Type ℓ} (t : Table) (row : Vm) (a : A) (k : ℕ)
      → first (commit_row db t row a).0 k
        ≡ (if lacks_index row then first t k else if row.vmid == k then some row else first t k)
  unfolding commit_row
  first-commit_row t row a k = ground (arith, first-put t row k)

  pub first-delete :
      (t : Table) (vmid k : ℕ)
      → first (delete db t vmid) k ≡ (if vmid == k then none else first t k)
  unfolding delete
  first-delete t vmid k = elim (Option-cases (first t vmid)) [
    | inl e ↦ rw (e, delete) (ground arith)
    | inr (v, e) ↦ rw (e, delete) (ground (arith, first-remove t v k, first-vmid t vmid v e))
  ]
