-- ===== src/Store/Write.antt =====
-- The write methods of internal/store/store.go but AcquireHot. Each is one transaction: it returns
-- the table that it leaves and its result. `now` is what time.Now() returns in the call.
use actions_runner_scaleset.Prelude.{
  ℕ, ◌==◌, Bool, true, false, ◌&&◌, Option, none, some, List, String, str_eq, if◌then◌else◌,
}
use actions_runner_scaleset.Store.{
  Vm, State, state_eq, Result, ok, err, not_found, immutable_field_changed, vmid_not_positive,
  already_exists, write_failed,
}
use actions_runner_scaleset.Store.Table.{Memdb, lacks_index}
use actions_runner_scaleset.Store.Read.{is_one_of}

abbrev pub default_profile_name : String
default_profile_name = "default"

-- enforceImmutable: no error exactly when VMID, Profile and CreatedAt are kept
unfoldable pub enforce_immutable : Vm → Vm → Bool
enforce_immutable before after =
    before.vmid == after.vmid
    && str_eq before.profile after.profile
    && before.created_at == after.created_at

-- The defaults that Insert fills in.
unfoldable pub stamp : Vm → ℕ → Vm
stamp v now = record v {
  profile = if str_eq v.profile "" then default_profile_name else v.profile;
  created_at = if v.created_at == 0 then now else v.created_at;
  updated_at = if v.updated_at == 0 then now else v.updated_at;
  state_since = if v.state_since == 0 then now else v.state_since;
}

-- The state and the stamps that a transition writes before `mutate` runs.
unfoldable pub enter : Vm → State → ℕ → Vm
enter v to now = record v { state = to; state_since = now; updated_at = now }

module _ (db : Memdb) where
  open db use {Table, first, put, remove}

  -- txn.Insert and txn.Commit
  unfoldable pub commit_row {ℓ} : {A : Type ℓ} → Table → Vm → A → Table × Result A
  commit_row t row a = if lacks_index row then (t, err write_failed) else (put t row, ok a)

  -- Insert
  unfoldable pub insert : Table → Vm → ℕ → Table × Result (Unit {0})
  unfolding commit_row
  insert t v now = if v.vmid == 0 then (t, err vmid_not_positive) else elim (first t v.vmid) [
    | some existing ↦ (t, err already_exists)
    | none ↦ commit_row t (stamp v now) tt
  ]

  -- DeleteAndReturn
  unfoldable pub delete_and_return : Table → ℕ → Table × Option Vm
  delete_and_return t vmid = elim (first t vmid) [
    | none ↦ (t, none)
    | some row ↦ (remove t row, some row)
  ]

  -- Delete
  unfoldable pub delete : Table → ℕ → Table
  delete t vmid = elim (first t vmid) [ none ↦ t | some row ↦ remove t row ]

  -- The end of updateInTxn, with the commit of Update.
  unfoldable pub write_update : Table → Vm → Vm → ℕ → Table × Result Vm
  unfolding commit_row
  write_update t before after now =
      if enforce_immutable before after
      then (let row = record after { updated_at = now } in commit_row t row row)
      else (t, err immutable_field_changed)

  -- Update and updateInTxn; a nil `mutate` is the identity
  unfoldable pub update : Table → ℕ → (Vm → Vm) → ℕ → Table × Result Vm
  unfolding write_update
  update t vmid mutate now = elim (first t vmid) [
    | none ↦ (t, err not_found)
    | some before ↦ write_update t before (mutate before) now
  ]

  -- The end of UpdateState and UpdateStateIn, once the current state is accepted.
  unfoldable pub write_transition : Table → Vm → State → (Vm → Vm) → ℕ → Table × Result Bool
  unfolding commit_row
  write_transition t cur to mutate now =
      let cp = mutate (enter cur to now) in
      if enforce_immutable cur cp then commit_row t cp true else (t, err immutable_field_changed)

  -- UpdateState
  unfoldable pub update_state : Table → ℕ → State → State → (Vm → Vm) → ℕ → Table × Result Bool
  unfolding write_transition
  update_state t vmid from to mutate now = elim (first t vmid) [
    | none ↦ (t, ok false)
    | some cur ↦
        if state_eq cur.state from then write_transition t cur to mutate now else (t, ok false)
  ]

  -- UpdateStateIn
  unfoldable pub update_state_in :
      Table → ℕ → List State → State → (Vm → Vm) → ℕ → Table × Result Bool
  unfolding write_transition
  update_state_in t vmid from to mutate now = elim (first t vmid) [
    | none ↦ (t, ok false)
    | some cur ↦
        if is_one_of cur.state from then write_transition t cur to mutate now else (t, ok false)
  ]
