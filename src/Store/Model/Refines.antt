-- ===== src/Store/Model/Refines.antt =====
-- The methods of internal/store/store.go implement the model.
use actions_runner_scaleset.Prelude.{
  ℕ, ◌==◌, ◌≡◌, refl, ap, sym, ◌∙◌, inl, inr, Bool, true, some, List, [], ◌∷◌, Bool-cases,
  Option-cases, if◌then◌else◌,
}
use actions_runner_scaleset.Store.{Vm, Result, ok, err, immutable_field_changed}
use actions_runner_scaleset.Store.Table.{Memdb}
use actions_runner_scaleset.Store.Read.{is_one_of}
use actions_runner_scaleset.Store.Write.{
  enforce_immutable, stamp, enter, commit_row, insert, delete, write_update, update,
  write_transition, update_state_in,
}
use actions_runner_scaleset.Store.Lookup.{
  SameIdentity, enforce_immutable-SameIdentity, first-delete,
}
use actions_runner_scaleset.Store.Validity.{
  IsValid, IsProper-SameIdentity, lacks_index-stamp, insert-IsValid, delete-IsValid, update-IsValid,
  update_state_in-IsValid,
}
use actions_runner_scaleset.Store.Model.{
  Rows, set, Call, inserts, deletes, updates, transitions, gets, Reply, inserted, deleted, updated,
  transitioned, got, overwrite, promised, promised_all,
}

-- Rows that agree at every VMID are the same.
same_rows : {m n : Rows} → ((k : ℕ) → m k ≡ n k) → m ≡ n
same_rows h = λ i k. h k i

stamp-vmid : (v : Vm) (now : ℕ) → (stamp v now).vmid ≡ v.vmid
unfolding stamp
stamp-vmid v now = refl

module _ (db : Memdb) where
  open db use {Table, first, put, first-put, first-vmid}

  -- A call on the table.
  unfoldable pub made : Table → Call → Table × Reply
  unfolding insert delete update update_state_in
  made t (inserts v now) = (let (u, r) = insert db t v now in (u, inserted r))
  made t (deletes vmid) = (delete db t vmid, deleted)
  made t (updates vmid mutate now) = (let (u, r) = update db t vmid mutate now in (u, updated r))
  made t (transitions vmid from to mutate now) =
      (let (u, r) = update_state_in db t vmid from to mutate now in (u, transitioned r))
  made t (gets vmid) = (t, got (first t vmid))

  unfoldable pub made_all : Table → List Call → Table × List Reply
  unfolding made
  made_all t [] = (t, [])
  made_all t (c ∷ cs) = let (u, r) = made t c in let (last, rs) = made_all u cs in (last, r ∷ rs)

  first-put-set :
      (t : Table) (row : Vm) (vmid : ℕ)
      → row.vmid ≡ vmid
      → first (put t row) ≡ set (first t) vmid (some row)
  unfolding set
  first-put-set t row vmid e =
      same_rows (λ k. first-put t row k ∙ ap (λ n. if n == k then some row else first t k) e)

  -- What an overwriting call leaves.
  put-overwrite {ℓ} :
      {A : Type ℓ} (t : Table) (vmid : ℕ) (before after row : Vm) (a : A)
      → IsValid db t
      → first t vmid ≡ some before
      → SameIdentity after row
      → let (u, r) =
          (if enforce_immutable before after
            then commit_row db t row a
            else (t, err immutable_field_changed)) in
        (first u, r) ≡ overwrite (first t) vmid before after a row
  unfolding overwrite commit_row
  put-overwrite t vmid before after row a h f s =
      elim (Bool-cases (enforce_immutable before after)) [
        | inr e ↦ rw (e, overwrite) refl
        | inl e ↦
            let kept = enforce_immutable-SameIdentity before after e in
            let proper =
              IsProper-SameIdentity after row s
                (IsProper-SameIdentity before after kept (h.proper vmid before f)) in
            rw (e, overwrite, proper.1)
              (ap (λ m. (m, ok a))
                (first-put-set t row vmid (sym s.0 ∙ sym kept.0 ∙ first-vmid t vmid before f)))
      ]

  made-promised :
      (t : Table) (c : Call)
      → IsValid db t
      → let (u, r) = made t c in promised (first t) c ≡ (first u, r)
  unfolding made promised insert update update_state_in write_update write_transition commit_row
  made-promised t (gets vmid) h = refl
  made-promised t (deletes vmid) h =
      ap (λ m. (m, deleted)) (sym (same_rows (first-delete db t vmid)))
  made-promised t (inserts v now) h = elim (Bool-cases (v.vmid == 0)) [
    | inl z ↦ rw (promised, insert, z) refl
    | inr z ↦ elim (Option-cases (first t v.vmid)) [
      | inr (x, e) ↦ rw (promised, insert, z, e) refl
      | inl e ↦
          rw (promised, insert, z, e, commit_row, lacks_index-stamp v now)
            (ap (λ m. (m, inserted (ok tt)))
              (sym (first-put-set t (stamp v now) v.vmid (stamp-vmid v now))))
    ]
  ]
  made-promised t (updates vmid mutate now) h = elim (Option-cases (first t vmid)) [
    | inl e ↦ rw (promised, e, update) refl
    | inr (before, e) ↦
        let row = record (mutate before) { updated_at = now } in
        rw (promised, e, update, write_update)
          (sym (
            ap (λ (x : Rows × Result Vm). (x.0, updated x.1))
              (put-overwrite t vmid before (mutate before) row row h e (refl, refl, refl))))
  ]
  made-promised t (transitions vmid from to mutate now) h = elim (Option-cases (first t vmid)) [
    | inl e ↦ rw (promised, e, update_state_in) refl
    | inr (before, e) ↦ elim (Bool-cases (is_one_of before.state from)) [
      | inr f ↦ rw (promised, e, f, update_state_in) refl
      | inl f ↦
          let row = mutate (enter before to now) in
          rw (promised, e, f, update_state_in, write_transition)
            (sym (
              ap (λ (x : Rows × Result Bool). (x.0, transitioned x.1))
                (put-overwrite t vmid before row row true h e (refl, refl, refl))))
    ]
  ]

  made-IsValid : (t : Table) (c : Call) → IsValid db t → IsValid db (made t c).0
  unfolding made
  made-IsValid t (inserts v now) h = insert-IsValid db t v now h
  made-IsValid t (deletes vmid) h = delete-IsValid db t vmid h
  made-IsValid t (updates vmid mutate now) h = update-IsValid db t vmid mutate now h
  made-IsValid t (transitions vmid from to mutate now) h =
      update_state_in-IsValid db t vmid from to mutate now h
  made-IsValid t (gets vmid) h = h

  -- Any sequence of Insert, Delete, Update, UpdateStateIn and Get calls on a valid table gives the results
  -- that the same calls give on a plain map from VMIDs to rows that starts with the rows of the table;
  -- and in the end the table holds the rows of the map.
  pub calls_refine :
      (t : Table) (calls : List Call)
      → IsValid db t
      → let (u, replies) = made_all t calls in promised_all (first t) calls ≡ (first u, replies)
  unfolding made_all promised_all
  calls_refine t [] h = refl
  calls_refine t (c ∷ cs) h =
      let u = (made t c).0 in rw (made-promised t c h, calls_refine u cs (made-IsValid t c h)) refl
