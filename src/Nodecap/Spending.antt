-- ===== src/Nodecap/Spending.antt =====
-- Interleavings of the calls of internal/nodecap/nodecap.go between two snapshots of the cluster: no
-- capacity is promised twice.
use Prim.Native.Nat.{max}
use actions_runner_scaleset.Prelude.{
  ℕ, inl, inr, ◌⊎◌, ◌+◌, ◌-◌, ◌^◌, ◌≡◌, ◌≤◌, ◌<◌, ◌==◌, refl, ap, true, false, not, List, [], ◌∷◌,
  String, str_eq, eq_iff, arith, filter, Bool-cases, All, if◌then◌else◌,
}
use actions_runner_scaleset.Nodecap.{
  Shape, Snapshot, Claim, Accountant, totals_of, observed_mem, mem_credit, state_locked,
  fits_locked, still_there, retires, sweep_locked, sweep_claims, reserve_locked, bind_claims, bind,
  release,
}
use actions_runner_scaleset.Nodecap.Ledger.{pending, pending_of, held_by, credits, committed-exact}
use actions_runner_scaleset.Nodecap.Admission.{usable, fits_facts, available-exact, new_claim}

-- One call that takes the lock: Reserve for no victims, the first Bind of a reservation, Release, and
-- the sweep that Fits and Snapshot make.
pub data Step (snap : Snapshot) : Accountant → Accountant → Type 0 where
  reserved :
      (a : Accountant) (now : ℕ) (node : String) (shape : Shape)
      → Step snap a (reserve_locked a snap now node shape []).0
  bound :
      (a : Accountant) (id vmid : ℕ)
      → All (λ r. ((r.id == id) ≡ false) ⊎ (r.vmid ≡ 0)) a.res
      → Step snap a (bind a id vmid)
  released : (a : Accountant) (id : ℕ) → Step snap a (release a id)
  swept : (a : Accountant) (now : ℕ) → Step snap a (sweep_locked a snap now)

pub data Reach (snap : Snapshot) (a : Accountant) : Accountant → Type 0 where
  here : Reach snap a a
  next : {b c : Accountant} → Reach snap a b → Step snap b c → Reach snap a c

-- No reservation waits for VMs to be destroyed.
abbrev pub FreesNone : List Claim → Type 0
FreesNone rs = All (λ r. r.freeing ≡ []) rs

module _ (snap : Snapshot) (node : String) where
  credits_none : (rs : List Claim) → FreesNone rs → credits snap node rs ≡ 0
  unfolding credits held_by
  credits_none [] h = refl
  credits_none (r ∷ rs) h = elim (Bool-cases (str_eq r.node node)) [
    | inl e ↦ rw (e, h.0) (omega (arith, credits_none rs h.1))
    | inr e ↦ rw e (omega (arith, credits_none rs h.1))
  ]

  -- Sweeping, binding and releasing only lower what is pending.
  sweep_lowers :
      (now : ℕ) (rs : List Claim)
      → FreesNone rs
      → FreesNone (sweep_claims snap now rs)
        × (pending snap node (sweep_claims snap now rs) ≤ pending snap node rs)
  unfolding sweep_claims pending pending_of observed_mem filter
  sweep_lowers now [] h = (tt, omega arith)
  sweep_lowers now (r ∷ rs) h =
      let (k, l) = sweep_lowers now rs h.1 in
      elim (Bool-cases (retires snap now r)) [
        | inl e ↦ rw (sweep_claims, e) (k, omega (arith, l))
        | inr e ↦ rw (sweep_claims, e) ((ap (filter (still_there snap)) h.0, k), omega (arith, l))
      ]

  bind_one :
      (r : Claim) (vmid : ℕ)
      → r.vmid ≡ 0
      → pending_of snap (record r { vmid = vmid }) ≤ pending_of snap r
  unfolding pending_of observed_mem
  bind_one r vmid z =
      let unbound : observed_mem snap r ≡ 0 = ground (arith, z) in omega (arith, unbound)

  counted :
      (r : Claim) {m n : ℕ}
      → m ≤ n
      → (if str_eq r.node node then m else 0) ≤ (if str_eq r.node node then n else 0)
  counted r h = elim (Bool-cases (str_eq r.node node)) [
    | inl e ↦ rw e h
    | inr e ↦ rw e (omega arith)
  ]

  first_bind :
      (r : Claim) (id : ℕ)
      → (r.id == id) ≡ true
      → ((r.id == id) ≡ false) ⊎ (r.vmid ≡ 0)
      → r.vmid ≡ 0
  first_bind r id e (inl f) = absurd (cc (e, f))
  first_bind r id e (inr z) = z

  bind_lowers :
      (id vmid : ℕ) (rs : List Claim)
      → All (λ r. ((r.id == id) ≡ false) ⊎ (r.vmid ≡ 0)) rs
      → FreesNone rs
      → FreesNone (bind_claims id vmid rs)
        × (pending snap node (bind_claims id vmid rs) ≤ pending snap node rs)
  unfolding bind_claims pending
  bind_lowers id vmid [] first h = (tt, omega arith)
  bind_lowers id vmid (r ∷ rs) first h =
      let (k, l) = bind_lowers id vmid rs first.1 h.1 in
      elim (Bool-cases (r.id == id)) [
        | inl e ↦
            rw e
              ((h.0, k), omega (arith, l, counted r (bind_one r vmid (first_bind r id e first.0))))
        | inr e ↦ rw e ((h.0, k), omega (arith, l))
      ]

  release_lowers :
      (id : ℕ) (rs : List Claim)
      → FreesNone rs
      → let kept = filter (λ r. not (r.id == id)) rs in
        FreesNone kept × (pending snap node kept ≤ pending snap node rs)
  unfolding filter pending
  release_lowers id [] h = (tt, omega arith)
  release_lowers id (r ∷ rs) h =
      let (k, l) = release_lowers id rs h.1 in
      elim (Bool-cases (not (r.id == id))) [
        | inl e ↦ rw e ((h.0, k), omega (arith, l))
        | inr e ↦ rw e (k, omega (arith, l))
      ]

  module _ (limit : ℕ) where
    -- What is allocated on the node keeps under a bound.
    pub record Within (a : Accountant) : Type 0 where
      pub frees_none : FreesNone a.res
      pub under : (totals_of snap node).guest_mem + pending snap node a.res ≤ limit
      pub room : usable a snap node ≤ limit

    module _ (small : limit < 2 ^ 63) (physical : (totals_of snap node).mem_bytes < 2 ^ 63) where
      lowered :
          (a : Accountant) (rs : List Claim)
          → Within a
          → FreesNone rs × (pending snap node rs ≤ pending snap node a.res)
          → Within (record a { res = rs })
      lowered a rs h (k, l) = record {
        frees_none = k;
        under = omega (arith, h.under, l);
        room = h.room;
      }

      sweep-Within : (a : Accountant) (now : ℕ) → Within a → Within (sweep_locked a snap now)
      unfolding sweep_locked
      sweep-Within a now h =
          lowered a (sweep_claims snap now a.res) h (sweep_lowers now a.res h.frees_none)

      fits_under :
          (a : Accountant) (target : String) (shape : Shape)
          → Within a
          → fits_locked a snap target shape [] ≡ true
          → (totals_of snap node).guest_mem
              + ((if str_eq target node then shape.memory_bytes - 0 else 0)
                  + pending snap node a.res)
            ≤ limit
      unfolding mem_credit
      fits_under a target shape h f = elim (Bool-cases (str_eq target node)) [
        | inl e ↦
            let same : target ≡ node = (eq_iff target node).0 e in
            let facts = fits_facts snap a node shape [] (rw same at f) in
            let none_freed = credits_none a.res h.frees_none in
            let bytes =
              committed-exact snap a node
                (omega (arith, h.under, small), omega (arith, none_freed)) in
            rw e (
              omega (
                arith,
                facts.0,
                available-exact snap a node,
                bytes,
                none_freed,
                h.under,
                h.room,
                small,
              ))
        | inr e ↦ rw e (omega (arith, h.under))
      ]

      -- A reservation that fits fits under the bound.
      grant_one :
          (a : Accountant) (now : ℕ) (target : String) (shape : Shape)
          → Within a
          → fits_locked a snap target shape [] ≡ true
          → Within (record a {
            res = new_claim snap a now target shape [] ∷ a.res;
            next_res = a.next_res + 1;
          })
      unfolding pending pending_of observed_mem mem_credit
      grant_one a now target shape h f = record {
        frees_none = (refl, h.frees_none);
        under = fits_under a target shape h f;
        room = h.room;
      }

      reserve-Within :
          (a : Accountant) (now : ℕ) (target : String) (shape : Shape)
          → Within a
          → Within (reserve_locked a snap now target shape []).0
      unfolding reserve_locked
      reserve-Within a now target shape h =
          let b = sweep_locked a snap now in
          let k = sweep-Within a now h in
          elim (Bool-cases (fits_locked b snap target shape [])) [
            | inl f ↦ rw (reserve_locked, f) (grant_one b now target shape k f)
            | inr f ↦ rw (reserve_locked, f) k
          ]

      Step-Within : {a b : Accountant} → Step snap a b → Within a → Within b
      unfolding bind release
      Step-Within (reserved a now target shape) h = reserve-Within a now target shape h
      Step-Within (bound a id vmid first) h =
          lowered a (bind_claims id vmid a.res) h (bind_lowers id vmid a.res first h.frees_none)
      Step-Within (released a id) h =
          lowered a (filter (λ r. not (r.id == id)) a.res) h (release_lowers id a.res h.frees_none)
      Step-Within (swept a now) h = sweep-Within a now h

      Reach-Within : {a b : Accountant} → Reach snap a b → Within a → Within b
      Reach-Within here h = h
      Reach-Within (next r s) h = Step-Within s (Reach-Within r h)

-- No capacity is promised twice. From a ledger in which no reservation waits for VMs to be destroyed,
-- and for sizes in the range of an int64: after any interleaving of Reserve calls for any nodes,
-- first Binds, Releases and sweeps on one snapshot, what is committed on a node is at most what is
-- usable there, or at most what was committed at the start, if that was more already.
pub never_overspent :
    (snap : Snapshot) (node : String) (a b : Accountant)
    → (totals_of snap node).mem_bytes < 2 ^ 63
    → (totals_of snap node).guest_mem + pending snap node a.res < 2 ^ 63
    → FreesNone a.res
    → Reach snap a b
    → (state_locked b snap node).committed_bytes
      ≤ max (usable a snap node) (state_locked a snap node).committed_bytes
never_overspent snap node a b m p none_freed r =
    let start =
      committed-exact snap a node (p, omega (arith, credits_none snap node a.res none_freed)) in
    let limit =
      max (usable a snap node) ((totals_of snap node).guest_mem + pending snap node a.res) in
    let within : Within snap node limit a = record {
      frees_none = none_freed;
      under = omega arith;
      room = omega arith;
    } in
    let h = Reach-Within snap node limit (omega (arith, m, p)) m r within in
    let finish =
      committed-exact snap b node
        (omega (arith, h.under, m, p), omega (arith, credits_none snap node b.res h.frees_none)) in
    omega (arith, start, finish, h.under, credits_none snap node a.res none_freed)
