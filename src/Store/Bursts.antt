-- ===== src/Store/Bursts.antt =====
-- Refusals of AcquireHotInProfile of internal/store/store.go, and bursts of concurrent claims.
use actions_runner_scaleset.Prelude.{
  ℕ, ◌+◌, ◌==◌, ◌≡◌, ◌≢◌, ◌≤◌, inl, inr, ◌⊎◌, some, List, [], ◌∷◌, String, arith, Bool-cases,
  if◌then◌else◌, All, All-map, In, length, subst, sym,
}
use actions_runner_scaleset.Store.{
  Vm, hot, assigned, Result, ok, err, Error, at_capacity, none_available,
}
use actions_runner_scaleset.Store.Table.{Memdb, lacks_index}
use actions_runner_scaleset.Store.Acquire.{count_busy, hot_rows, acquire_hot_in_profile}
use actions_runner_scaleset.Store.Rows.{hot_rows-In}
use actions_runner_scaleset.Store.Validity.{IsValid}
use actions_runner_scaleset.Store.Claims.{IsFull, acquire_cases}
use actions_runner_scaleset.Store.Steps.{acquire-IsValid}
use actions_runner_scaleset.Store.Capacity.{acquire-caps}

-- A hot row that a claim for `profile` may take.
abbrev pub IsClaimable : String → Vm → Type 0
IsClaimable profile v = (v.state ≡ hot) × ((profile ≡ "") ⊎ (v.profile ≡ profile))

pub record Request : Type 0 where
  pub profile : String
  pub job_id : ℕ
  pub max_busy : ℕ
  pub now : ℕ

abbrev grant : Result Vm → List Vm → List Vm
grant (ok v) vms = v ∷ vms
grant (err e) vms = vms

module _ (db : Memdb) where
  open db use {Table, first, put, first-put, first-vmid}

  claimable-In :
      (t : Table) (profile : String) (k : ℕ) (v : Vm)
      → IsValid db t
      → first t k ≡ some v
      → IsClaimable profile v
      → In v (hot_rows db t profile)
  unfolding lacks_index
  claimable-In t profile k v h f (s, p) =
      let at : first t v.vmid ≡ some v =
        subst (λ (j : ℕ). first t j ≡ some v) (sym (first-vmid t k v f)) f in
      let named = (h.proper k v f).1 in
      hot_rows-In db t profile v at s (elim p [ inl e ↦ inl e | inr e ↦ inr (e, named) ])

  -- A claim that fails on a valid table leaves it unchanged. It fails with ErrAtCapacity exactly when
  -- a cap is reached, and otherwise with ErrNoneAvailable, exactly when no claimable row is there.
  pub acquire_errors :
      (t u : Table) (e : Error) (profile : String) (job_id max_concurrent max_busy now : ℕ)
      → IsValid db t
      → acquire_hot_in_profile db t profile job_id max_concurrent max_busy now ≡ (u, err e)
      → (u ≡ t)
        × (((e ≡ at_capacity) × IsFull db t profile job_id max_concurrent max_busy now)
            ⊎ ((e ≡ none_available)
                × (¬ IsFull db t profile job_id max_concurrent max_busy now)
                × ((k : ℕ) (v : Vm) → first t k ≡ some v → ¬ IsClaimable profile v)))
  acquire_errors t u e profile job_id max_concurrent max_busy now h r =
      elim (acquire_cases db t profile job_id max_concurrent max_busy now h) [
        | inl (full, q) ↦ (ground (arith, r, q), inl (ground (arith, r, q), full))
        | inr (inl (n, z, q)) ↦ (
          ground (arith, r, q),
          inr (
            ground (arith, r, q),
            n,
            λ k v f c. subst (In v) z (claimable-In t profile k v h f c),
          ),
        )
        | inr (inr (v, c, q)) ↦ absurd (cc (r, q))
      ]

  -- A claim on a valid table below both caps succeeds when a claimable row is there.
  pub acquire_succeeds :
      (t : Table) (k : ℕ) (v : Vm) (profile : String) (job_id max_concurrent max_busy now : ℕ)
      → IsValid db t
      → ¬ IsFull db t profile job_id max_concurrent max_busy now
      → first t k ≡ some v
      → IsClaimable profile v
      → (u : Table) × (w : Vm) × (acquire_hot_in_profile db t profile job_id max_concurrent max_busy
            now
          ≡ (u, ok w))
  acquire_succeeds t k v profile job_id max_concurrent max_busy now h n f c =
      elim (acquire_cases db t profile job_id max_concurrent max_busy now h) [
        | inl (full, q) ↦ absurd (n full)
        | inr (inl (m, z, q)) ↦ absurd (subst (In v) z (claimable-In t profile k v h f c))
        | inr (inr (w, d, q)) ↦ (_, _, q)
      ]

  -- Claims one after another, as the write lock orders concurrent callers: the VMs handed out.
  pub burst : Table → ℕ → List Request → Table × List Vm
  burst t max_concurrent [] = (t, [])
  burst t max_concurrent (q ∷ qs) =
      let (u, r) = acquire_hot_in_profile db t q.profile q.job_id max_concurrent q.max_busy q.now in
      let (w, vms) = burst u max_concurrent qs in (w, grant r vms)

  -- The VMID `k` is held by a hot row.
  abbrev pub IsHotAt : Table → ℕ → Type 0
  IsHotAt t k = (v : Vm) × (first t k ≡ some v) × (v.state ≡ hot)

  -- No two of the VMs have one VMID.
  abbrev pub DistinctVms : List Vm → Type 0
  DistinctVms [] = Unit {0}
  DistinctVms (v ∷ vs) = All (λ w. w.vmid ≢ v.vmid) vs × DistinctVms vs

  module _ (t u : Table) (w : Vm) (q : Request) (max_concurrent : ℕ) (h : IsValid db t)
      (e : acquire_hot_in_profile db t q.profile q.job_id max_concurrent q.max_busy q.now
        ≡ (u, ok w)) where
    -- A claim makes no row hot; the row that it takes was hot and no longer is.
    claim_takes :
        ((k : ℕ) → IsHotAt u k → IsHotAt t k × (k ≢ w.vmid))
        × IsHotAt t w.vmid
        × (count_busy db u "" ≡ count_busy db t "" + 1)
        × (count_busy db u "" ≤ max_concurrent)
    claim_takes =
        let (more, cap, _, _, (v, held, v_hot, _, is_w, found)) =
          acquire-caps db t u w q.profile q.job_id max_concurrent q.max_busy q.now h e in
        let at : w.vmid ≡ v.vmid = ground (arith, is_w) in
        (
          λ k (x, fx, hx). was_hot v k x at (ground (arith, is_w)) (found k) fx hx,
          rw at (v, held, v_hot),
          more,
          cap,
        )
      where
        was_hot :
            (v : Vm) (k : ℕ) (x : Vm)
            → w.vmid ≡ v.vmid
            → w.state ≡ assigned
            → first u k ≡ (if v.vmid == k then some w else first t k)
            → first u k ≡ some x
            → x.state ≡ hot
            → IsHotAt t k × (k ≢ w.vmid)
        was_hot v k x at a f fx hx = elim (Bool-cases (v.vmid == k)) [
          | inl p ↦ absurd (ground arith)
          | inr p ↦ ((x, ground arith, hx), λ e. ground arith)
        ]

  outcome :
      (t : Table) (q : Request) (max_concurrent : ℕ)
      → IsValid db t
      → let r = acquire_hot_in_profile db t q.profile q.job_id max_concurrent q.max_busy q.now in
        ((u : Table) × (w : Vm) × (r ≡ (u, ok w))) ⊎ ((e : Error) × (r ≡ (t, err e)))
  outcome t q max_concurrent h =
      elim (acquire_cases db t q.profile q.job_id max_concurrent q.max_busy q.now h) [
        | inl (full, r) ↦ inr (at_capacity, r)
        | inr (inl (n, z, r)) ↦ inr (none_available, r)
        | inr (inr (v, c, r)) ↦ inl (_, _, r)
      ]

  -- A burst of claims under one fleet cap, from a valid table that is within it: the busy rows grow
  -- by exactly the VMs handed out and stay within the cap, whatever the order and the arguments of
  -- the claims; no VM is handed out twice; and every VM handed out was hot before the burst.
  pub burst_caps :
      (t : Table) (max_concurrent : ℕ) (qs : List Request)
      → IsValid db t
      → count_busy db t "" ≤ max_concurrent
      → let (u, vms) = burst t max_concurrent qs in
        (count_busy db u "" ≡ count_busy db t "" + length vms)
        × (count_busy db u "" ≤ max_concurrent)
        × DistinctVms vms
        × All (λ w. IsHotAt t w.vmid) vms
  unfolding burst
  burst_caps t max_concurrent [] h room = (omega arith, room, tt, tt)
  burst_caps t max_concurrent (q ∷ qs) h room = elim (outcome t q max_concurrent h) [
    | inr (e, r) ↦ rw (r, burst) (burst_caps t max_concurrent qs h room)
    | inl (u, w, r) ↦
        let (hot_before, w_hot, more, cap) = claim_takes t u w q max_concurrent h r in
        let h' : IsValid db u =
          rw r at (acquire-IsValid db t q.profile q.job_id max_concurrent q.max_busy q.now h) in
        let (count, within, distinct, hots) = burst_caps u max_concurrent qs h' cap in
        rw (r, burst)
          (
            omega (arith, more, count),
            within,
            (All-map _ (λ x hx. (hot_before x.vmid hx).1) hots, distinct),
            (w_hot, All-map _ (λ x hx. (hot_before x.vmid hx).0) hots),
          )
  ]
