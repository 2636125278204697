-- ===== src/Store/Steps.antt =====
-- The transactions of internal/store/store.go as steps: what every interleaving of them keeps.
use actions_runner_scaleset.Prelude.{
  ℕ, ◌==◌, ◌≡◌, refl, inl, inr, none, some, List, String, arith, Option-cases, Bool-cases, subst,
  sym,
}
use actions_runner_scaleset.Store.{Vm, State}
use actions_runner_scaleset.Store.Table.{Memdb}
use actions_runner_scaleset.Store.Write.{
  enforce_immutable, stamp, enter, commit_row, insert, delete, write_update, update,
  update_state_in,
}
use actions_runner_scaleset.Store.Acquire.{acquire_hot_in_profile, claim}
use actions_runner_scaleset.Store.Claims.{acquire_cases, claim-IsProper}
use actions_runner_scaleset.Store.Lookup.{
  SameIdentity, enforce_immutable-SameIdentity, first-commit_row, first-delete,
}
use actions_runner_scaleset.Store.Validity.{
  IsValid, put-IsValid, insert-IsValid, delete-IsValid, update-IsValid, update_state_in-IsValid,
}
use actions_runner_scaleset.Store.Transitions.{update_state_in-exact, Replaces}

module _ (db : Memdb) where
  open db use {Table, empty, first, put, first-put, first-vmid}

  -- One transaction of the store, with its arguments.
  pub data Step (t : Table) : Table → Type 0 where
    inserts : (v : Vm) (now : ℕ) → Step t (insert db t v now).0
    deletes : (vmid : ℕ) → Step t (delete db t vmid)
    updates : (vmid : ℕ) (mutate : Vm → Vm) (now : ℕ) → Step t (update db t vmid mutate now).0
    transitions :
        (vmid : ℕ) (from : List State) (to : State) (mutate : Vm → Vm) (now : ℕ)
        → Step t (update_state_in db t vmid from to mutate now).0
    claims :
        (profile : String) (job_id max_concurrent max_busy now : ℕ)
        → Step t (acquire_hot_in_profile db t profile job_id max_concurrent max_busy now).0

  pub data Reach (t : Table) : Table → Type 0 where
    here : Reach t t
    next : {u w : Table} → Reach t u → Step u w → Reach t w

  pub acquire-IsValid :
      (t : Table) (profile : String) (job_id max_concurrent max_busy now : ℕ)
      → IsValid db t
      → IsValid db (acquire_hot_in_profile db t profile job_id max_concurrent max_busy now).0
  acquire-IsValid t profile job_id max_concurrent max_busy now h =
      elim (acquire_cases db t profile job_id max_concurrent max_busy now h) [
        | inl (full, e) ↦ rw e h
        | inr (inl (n, z, e)) ↦ rw e h
        | inr (inr (v, c, e)) ↦ rw e (
            put-IsValid db t (claim v job_id now) h
              (claim-IsProper db t profile job_id max_concurrent max_busy now v h c.found))
      ]

  Step-IsValid : {t u : Table} → Step t u → IsValid db t → IsValid db u
  Step-IsValid {t} (inserts v now) h = insert-IsValid db t v now h
  Step-IsValid {t} (deletes vmid) h = delete-IsValid db t vmid h
  Step-IsValid {t} (updates vmid mutate now) h = update-IsValid db t vmid mutate now h
  Step-IsValid {t} (transitions vmid from to mutate now) h =
      update_state_in-IsValid db t vmid from to mutate now h
  Step-IsValid {t} (claims profile job_id max_concurrent max_busy now) h =
      acquire-IsValid t profile job_id max_concurrent max_busy now h

  -- After any sequence of transactions from a valid table the table is valid: each row has a positive
  -- VMID and a non-empty profile.
  pub Reach-IsValid : {t u : Table} → IsValid db t → Reach t u → IsValid db u
  Reach-IsValid h here = h
  Reach-IsValid h (next r s) = Step-IsValid s (Reach-IsValid h r)

  -- A row that is replaced keeps its identity if the new row has it.
  Replaces-SameIdentity :
      (t u : Table) (vmid k : ℕ) (cur row v w : Vm)
      → Replaces db t u vmid row
      → first t vmid ≡ some cur
      → SameIdentity cur row
      → first t k ≡ some v
      → first u k ≡ some w
      → SameIdentity v w
  Replaces-SameIdentity t u vmid k cur row v w r f s a b = elim (Bool-cases (vmid == k)) [
    | inl e ↦
        let same : vmid ≡ k = ground arith in
        let at : first t k ≡ some cur = subst (λ (j : ℕ). first t j ≡ some cur) same f in
        ground (arith, r k)
    | inr e ↦ ground (arith, r k)
  ]

  commit_row-SameIdentity :
      (t : Table) (cur row : Vm) (k : ℕ) (v w : Vm)
      → first t cur.vmid ≡ some cur
      → SameIdentity cur row
      → first t k ≡ some v
      → first (commit_row db t row row).0 k ≡ some w
      → SameIdentity v w
  commit_row-SameIdentity t cur row k v w f s a b = elim (Bool-cases (cur.vmid == k)) [
    | inl e ↦
        let same : cur.vmid ≡ k = ground arith in
        let at : first t k ≡ some cur = subst (λ (j : ℕ). first t j ≡ some cur) same f in
        ground (arith, first-commit_row db t row row k)
    | inr e ↦ ground (arith, first-commit_row db t row row k)
  ]

  update-SameIdentity :
      (t : Table) (vmid : ℕ) (mutate : Vm → Vm) (now k : ℕ) (v w : Vm)
      → first t k ≡ some v
      → first (update db t vmid mutate now).0 k ≡ some w
      → SameIdentity v w
  unfolding update
  update-SameIdentity t vmid mutate now k v w a b = elim (Option-cases (first t vmid)) [
    | inl e ↦ ground (arith, rw (e, update) at b)
    | inr (cur, e) ↦ elim (Bool-cases (enforce_immutable cur (mutate cur))) [
      | inl s ↦
          let row = record (mutate cur) { updated_at = now } in
          let b' = rw (e, update, write_update, s) at b in
          let at : first t cur.vmid ≡ some cur =
            subst (λ (j : ℕ). first t j ≡ some cur) (sym (first-vmid t vmid cur e)) e in
          let same = enforce_immutable-SameIdentity cur (mutate cur) s in
          commit_row-SameIdentity t cur row k v w at same a b'
      | inr s ↦ ground (arith, rw (e, update, write_update, s) at b)
    ]
  ]

  insert-SameIdentity :
      (t : Table) (x : Vm) (now k : ℕ) (v w : Vm)
      → first t k ≡ some v
      → first (insert db t x now).0 k ≡ some w
      → SameIdentity v w
  unfolding insert stamp
  insert-SameIdentity t x now k v w a b = elim (Option-cases (first t x.vmid)) [
    | inr (y, e) ↦ ground (arith, rw (e, insert) at b)
    | inl e ↦ elim (Bool-cases (x.vmid == k)) [
      | inl p ↦
          let same : x.vmid ≡ k = ground arith in
          absurd (cc (subst (λ (j : ℕ). first t j ≡ none) same e))
      | inr p ↦ ground (arith, rw (e, insert) at b, first-commit_row {0} db t (stamp x now) tt k)
    ]
  ]

  acquire-SameIdentity :
      (t : Table) (profile : String) (job_id max_concurrent max_busy now k : ℕ) (v w : Vm)
      → IsValid db t
      → first t k ≡ some v
      → first (acquire_hot_in_profile db t profile job_id max_concurrent max_busy now).0 k ≡ some w
      → SameIdentity v w
  unfolding claim
  acquire-SameIdentity t profile job_id max_concurrent max_busy now k v w h a b =
      elim (acquire_cases db t profile job_id max_concurrent max_busy now h) [
        | inl (full, e) ↦ ground (arith, rw e at b)
        | inr (inl (n, z, e)) ↦ ground (arith, rw e at b)
        | inr (inr (x, c, e)) ↦
            Replaces-SameIdentity t _ x.vmid k x (claim x job_id now) v w
              (λ j. first-put t (claim x job_id now) j) c.found (refl, refl, refl) a (rw e at b)
      ]

  transition-SameIdentity :
      (t : Table) (vmid : ℕ) (from : List State) (to : State) (mutate : Vm → Vm) (now k : ℕ)
      (v w : Vm)
      → IsValid db t
      → first t k ≡ some v
      → first (update_state_in db t vmid from to mutate now).0 k ≡ some w
      → SameIdentity v w
  transition-SameIdentity t vmid from to mutate now k v w h a b =
      elim (update_state_in-exact db t vmid to mutate now from h) [
        | inl (cur, f, s, inl (same, r, reps)) ↦
            Replaces-SameIdentity t _ vmid k cur (mutate (enter cur to now)) v w reps f same a b
        | inl (cur, f, s, inr (n, r, e)) ↦ ground (arith, rw e at b)
        | inr (n, e) ↦ ground (arith, rw e at b)
      ]

  -- No transaction changes the VMID, the profile or the creation time of a row that it leaves in the
  -- table: from a valid table, a row found at `k` before and after a step has the same three fields.
  pub Step-SameIdentity :
      {t u : Table} (k : ℕ) (v w : Vm)
      → Step t u
      → IsValid db t
      → first t k ≡ some v
      → first u k ≡ some w
      → SameIdentity v w
  Step-SameIdentity {t} k v w (inserts x now) h a b = insert-SameIdentity t x now k v w a b
  Step-SameIdentity {t} k v w (deletes vmid) h a b = ground (arith, first-delete db t vmid k)
  Step-SameIdentity {t} k v w (updates vmid mutate now) h a b =
      update-SameIdentity t vmid mutate now k v w a b
  Step-SameIdentity {t} k v w (transitions vmid from to mutate now) h a b =
      transition-SameIdentity t vmid from to mutate now k v w h a b
  Step-SameIdentity {t} k v w (claims profile job_id max_concurrent max_busy now) h a b =
      acquire-SameIdentity t profile job_id max_concurrent max_busy now k v w h a b
