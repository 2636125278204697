-- ===== src/Pool/Vmids/Lowest.antt =====
-- The choice of allocateVMID in internal/pool/manager.go, and the insert that follows it.
use actions_runner_scaleset.Prelude.{
  ℕ, zero, suc, ◌+◌, ◌-◌, ◌==◌, ◌≡◌, ◌≤◌, ◌<◌, refl, inl, inr, ◌⊎◌, Bool, true, false, ◌&&◌, subst,
  Option, none, some, List, [], ◌∷◌, map, arith, any, filter, In, Bool-cases,
}
use actions_runner_scaleset.Store.{Vm}
use actions_runner_scaleset.Store.Table.{Memdb, by_id}
use actions_runner_scaleset.Store.Read.{used_vmids, list}
use actions_runner_scaleset.Store.Rows.{In-get}
use actions_runner_scaleset.Pool.Vmids.{is_used, lowest_free, allocate_vmid}

module _ (settling : ℕ → Bool) (used : List ℕ) where
  -- An id that may not be handed out.
  abbrev pub IsBlocked : ℕ → Type 0
  IsBlocked id = (is_used id used ≡ true) ⊎ (settling id ≡ true)

  -- The least id from `id` on and below `limit` that is not blocked, or none if all are blocked.
  abbrev pub Lowest : ℕ → ℕ → Option ℕ → Type 0
  Lowest id limit o =
      ((k : ℕ) × (o ≡ some k)
        × (id ≤ k)
        × (k < limit)
        × (¬ IsBlocked k)
        × ((j : ℕ) → id ≤ j → j < k → IsBlocked j))
      ⊎ ((o ≡ none) × ((j : ℕ) → id ≤ j → j < limit → IsBlocked j))

  at_or_after :
      (id : ℕ) → IsBlocked id → (j : ℕ) → id ≤ j → (suc id ≤ j → IsBlocked j) → IsBlocked j
  at_or_after id b j le later = elim (Bool-cases (id == j)) [
    | inl e ↦ (let same : id ≡ j = ground arith in subst IsBlocked same b)
    | inr e ↦ later (ground arith)
  ]

  extend :
      (id limit : ℕ) (o : Option ℕ) → IsBlocked id → Lowest (suc id) limit o → Lowest id limit o
  extend id limit o b (inl (k, e, ge, lt, free, below)) =
      inl (k, e, omega arith, lt, free, λ j le l. at_or_after id b j le (λ ge'. below j ge' l))
  extend id limit o b (inr (e, all)) = inr (e, λ j le l. at_or_after id b j le (λ ge'. all j ge' l))

  pub lowest_free-Lowest :
      (fuel id limit : ℕ) → limit ≡ id + fuel → Lowest id limit (lowest_free settling used fuel id)
  unfolding lowest_free
  lowest_free-Lowest zero id limit z = inr (refl, λ j a b. absurd (omega arith))
  lowest_free-Lowest (suc fuel) id limit z = elim (Bool-cases (is_used id used)) [
    | inl e ↦
        rw (lowest_free, e)
          (extend id limit _ (inl e) (lowest_free-Lowest fuel (suc id) limit (omega arith)))
    | inr e ↦ elim (Bool-cases (settling id)) [
      | inl f ↦
          rw (lowest_free, e, f)
            (extend id limit _ (inr f) (lowest_free-Lowest fuel (suc id) limit (omega arith)))
      | inr f ↦
          rw (lowest_free, e, f)
            (inl (id, refl, omega arith, omega arith, free e f, λ j a b. absurd (omega arith)))
    ]
  ]
    where
      free : is_used id used ≡ false → settling id ≡ false → ¬ IsBlocked id
      free e f (inl x) = cc
      free e f (inr x) = cc

module _ (db : Memdb) where
  open db use {Table, first, get, first-vmid, get-first}

  abbrev Holder : (Vm → Bool) → ℕ → List Vm → Type 0
  Holder p id rows = (v : Vm) × In v rows × (p v ≡ true) × (v.vmid ≡ id)

  is_used-Holder :
      (p : Vm → Bool) (id : ℕ) (rows : List Vm)
      → is_used id (map (λ v. v.vmid) (filter p rows)) ≡ true
      → Holder p id rows
  unfolding is_used any filter
  is_used-Holder p id [] h = cc
  is_used-Holder p id (x ∷ xs) h = elim (Bool-cases (p x && x.vmid == id)) [
    | inl e ↦ (x, inl refl, ground arith, ground arith)
    | inr e ↦ let (v, m, q, at) = is_used-Holder p id xs (ground arith) in (v, inr m, q, at)
  ]

  Holder-is_used :
      (p : Vm → Bool) (id : ℕ) (rows : List Vm) (v : Vm)
      → In v rows
      → p v ≡ true
      → v.vmid ≡ id
      → is_used id (map (λ v. v.vmid) (filter p rows)) ≡ true
  unfolding is_used any filter
  Holder-is_used p id [] v m q at = absurd m
  Holder-is_used p id (x ∷ xs) v (inl e) q at =
      let px : p x ≡ true = rw e q in let ax : x.vmid ≡ id = rw e at in ground arith
  Holder-is_used p id (x ∷ xs) v (inr m) q at = ground (arith, Holder-is_used p id xs v m q at)

  -- A row holds the VMID, or it is settling after a destroy.
  abbrev pub IsTaken : (ℕ → Bool) → Table → ℕ → Type 0
  IsTaken settling t j = ((v : Vm) × (first t j ≡ some v)) ⊎ (settling j ≡ true)

  module _ (settling : ℕ → Bool) (min_id max_id : ℕ) (t : Table) (j : ℕ) (ge : min_id ≤ j)
      (le : j ≤ max_id) where
    IsBlocked-IsTaken : IsBlocked settling (used_vmids db t min_id max_id) j → IsTaken settling t j
    unfolding used_vmids list
    IsBlocked-IsTaken (inr s) = inr s
    IsBlocked-IsTaken (inl u) =
        let (v, m, q, at) = is_used-Holder _ j (get t by_id) u in
        inl (v, rw (← at) ((In-get db t by_id v).0 m).0)

    IsTaken-IsBlocked : IsTaken settling t j → IsBlocked settling (used_vmids db t min_id max_id) j
    unfolding used_vmids list
    IsTaken-IsBlocked (inr s) = inr s
    IsTaken-IsBlocked (inl (v, f)) =
        let at = first-vmid t j v f in
        inl (Holder-is_used _ j (get t by_id) v (get-first t j v f) (rw at (ground arith)) at)

  -- allocateVMID yields the least VMID of the configured range that no row holds and that is not
  -- settling after a destroy, and none exactly when every VMID of the range is held or settling.
  pub allocate_vmid-least :
      (settling : ℕ → Bool) (min_id max_id : ℕ) (t : Table)
      → ((k : ℕ) × (allocate_vmid db settling min_id max_id t ≡ some k)
          × (min_id ≤ k)
          × (k ≤ max_id)
          × (¬ IsTaken settling t k)
          × ((j : ℕ) → min_id ≤ j → j < k → IsTaken settling t j))
        ⊎ ((allocate_vmid db settling min_id max_id t ≡ none)
            × ((j : ℕ) → min_id ≤ j → j ≤ max_id → IsTaken settling t j))
  unfolding allocate_vmid
  allocate_vmid-least settling min_id max_id t =
      let limit = min_id + (suc max_id - min_id) in
      elim (lowest_free-Lowest settling (used_vmids db t min_id max_id) (suc max_id - min_id) min_id
        limit refl) [
          | inl (k, e, ge, lt, free, below) ↦ inl (
            k,
            e,
            ge,
            omega arith,
            λ taken. free (IsTaken-IsBlocked settling min_id max_id t k ge (omega arith) taken),
            λ j a b. IsBlocked-IsTaken settling min_id max_id t j a (omega arith) (below j a b),
          )
          | inr (e, all) ↦
              inr (
                e,
                λ j a b. IsBlocked-IsTaken settling min_id max_id t j a b (all j a (omega arith)),
              )
        ]
