-- ===== src/Store/Model.antt =====
-- The store of internal/store/store.go as its clients see it: a map from VMIDs to rows, and calls that
-- each read and write one entry of it. There are no tables, indexes or transactions.
pub mod Refines
use actions_runner_scaleset.Prelude.{
  ℕ, ◌==◌, Bool, true, false, Option, none, some, is_some, List, [], ◌∷◌, if◌then◌else◌,
}
use actions_runner_scaleset.Store.{
  Vm, State, Result, ok, err, not_found, immutable_field_changed, vmid_not_positive, already_exists,
}
use actions_runner_scaleset.Store.Read.{is_one_of}
use actions_runner_scaleset.Store.Write.{enforce_immutable, stamp, enter}

abbrev pub Rows : Type 0
Rows = ℕ → Option Vm

unfoldable pub set : Rows → ℕ → Option Vm → Rows
set m vmid o k = if vmid == k then o else m k

-- A call of the store, with the time that it sees.
pub data Call : Type 0 where
  inserts : Vm → ℕ → Call
  deletes : ℕ → Call
  updates : ℕ → (Vm → Vm) → ℕ → Call
  transitions : ℕ → List State → State → (Vm → Vm) → ℕ → Call
  gets : ℕ → Call

-- Its result.
pub data Reply : Type 0 where
  inserted : Result (Unit {0}) → Reply
  deleted : Reply
  updated : Result Vm → Reply
  transitioned : Result Bool → Reply
  got : Option Vm → Reply

-- A row in place of another: refused if it is another VM.
unfoldable pub overwrite {ℓ} : {A : Type ℓ} → Rows → ℕ → Vm → Vm → A → Vm → Rows × Result A
unfolding set enforce_immutable
overwrite m vmid before after a row =
    if enforce_immutable before after
    then (set m vmid (some row), ok a)
    else (m, err immutable_field_changed)

-- What a call promises.
unfoldable pub promised : Rows → Call → Rows × Reply
unfolding set stamp overwrite enter is_one_of
promised m (inserts v now) =
    if v.vmid == 0
    then (m, inserted (err vmid_not_positive))
    else if is_some (m v.vmid)
    then (m, inserted (err already_exists))
    else (set m v.vmid (some (stamp v now)), inserted (ok tt))
promised m (deletes vmid) = (set m vmid none, deleted)
promised m (updates vmid mutate now) = elim (m vmid) [
  | none ↦ (m, updated (err not_found))
  | some before ↦
      let row = record (mutate before) { updated_at = now } in
      let (n, r) = overwrite m vmid before (mutate before) row row in (n, updated r)
]
promised m (transitions vmid from to mutate now) = elim (m vmid) [
  | none ↦ (m, transitioned (ok false))
  | some before ↦
      let row = mutate (enter before to now) in
      if is_one_of before.state from
      then (let (n, r) = overwrite m vmid before row true row in (n, transitioned r))
      else (m, transitioned (ok false))
]
promised m (gets vmid) = (m, got (m vmid))

unfoldable pub promised_all : Rows → List Call → Rows × List Reply
unfolding promised
promised_all m [] = (m, [])
promised_all m (c ∷ cs) =
    let (n, r) = promised m c in let (last, rs) = promised_all n cs in (last, r ∷ rs)
