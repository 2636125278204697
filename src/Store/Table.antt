-- ===== src/Store/Table.antt =====
-- What internal/store relies on of hashicorp/go-memdb, and the indexes that schema.go declares.
use actions_runner_scaleset.Prelude.{
  ℕ, ◌+◌, ◌==◌, ◌≡◌, Bool, true, false, ◌&&◌, Option, none, some, List, [], String, str_eq, bit,
  filter, count, All, In, if◌then◌else◌,
}
use actions_runner_scaleset.Store.{Vm, State, PoolKind, state_eq, kind_eq}

-- A lookup: the name of an index, with the values that it is asked for.
pub data Index : Type 0 where
  by_id : Index
  by_state : State → Index
  by_pool_kind_state : PoolKind → State → Index
  by_profile : String → Index
  by_profile_state : String → State → Index
  by_org by_repo by_priority_class : String → Index

-- A text index with `AllowMissing` leaves rows with an empty field out.
abbrev pub indexed : String → String → Bool
indexed field wanted = if str_eq field "" then false else str_eq field wanted

-- The rows that an index yields at given values (`schema`).
unfoldable pub selects : Index → Vm → Bool
selects by_id v = true
selects (by_state s) v = state_eq v.state s
selects (by_pool_kind_state k s) v = kind_eq v.pool_kind k && state_eq v.state s
selects (by_profile p) v = indexed v.profile p
selects (by_profile_state p s) v = indexed v.profile p && state_eq v.state s
selects (by_org o) v = indexed v.org o
selects (by_repo r) v = indexed v.repo r
selects (by_priority_class c) v = indexed v.priority_class c

-- An insert is refused when a text index without `AllowMissing` has no value: of the fields that
-- can be empty here, only `profile` has such an index.
unfoldable pub lacks_index : Vm → Bool
lacks_index v = str_eq v.profile ""

abbrev pub hit : (Vm → Bool) → Option Vm → ℕ
hit p none = 0
hit p (some v) = bit (p v)

-- A table of one transaction: lookups by the unique index `id`, iteration over an index, and the
-- two writes. A transaction that is not committed leaves the table that it began with.
pub record Memdb : Type 1 where
  pub Table : Type 0
  pub empty : Table
  -- `txn.First(tableVM, "id", vmid)`
  pub first : Table → ℕ → Option Vm
  -- `txn.Get(tableVM, index, values)`
  pub get : Table → Index → List Vm
  -- `txn.Insert(tableVM, row)`: replaces the row with the same VMID
  pub put : Table → Vm → Table
  -- `txn.Delete(tableVM, row)`
  pub remove : Table → Vm → Table
  pub get-empty : get empty by_id ≡ []
  pub get-filter : (t : Table) (i : Index) → get t i ≡ filter (selects i) (get t by_id)
  pub first-vmid : (t : Table) (k : ℕ) (v : Vm) → first t k ≡ some v → v.vmid ≡ k
  pub first-get : (t : Table) → All (λ v. first t v.vmid ≡ some v) (get t by_id)
  pub get-first : (t : Table) (k : ℕ) (v : Vm) → first t k ≡ some v → In v (get t by_id)
  pub first-put :
      (t : Table) (v : Vm) (k : ℕ) → first (put t v) k ≡ (if v.vmid == k then some v else first t k)
  pub first-remove :
      (t : Table) (v : Vm) (k : ℕ)
      → first (remove t v) k ≡ (if v.vmid == k then none else first t k)
  -- Each write changes the number of rows that pass a test by the rows it drops and adds.
  pub count-put :
      (t : Table) (v : Vm) (p : Vm → Bool)
      → count p (get (put t v) by_id) + hit p (first t v.vmid) ≡ count p (get t by_id) + bit (p v)
  pub count-remove :
      (t : Table) (v : Vm) (p : Vm → Bool)
      → count p (get (remove t v) by_id) + hit p (first t v.vmid) ≡ count p (get t by_id)
