-- ===== src/Nodecap/Admission.antt =====
-- What a reservation that internal/nodecap/nodecap.go grants leaves of a node.
use Prim.Native.Nat.{max}
use actions_runner_scaleset.Prelude.{
  ℕ, inl, inr, ◌⊎◌, ◌+◌, ◌-◌, ◌%◌, ◌^◌, ◌≡◌, ◌≤◌, ◌<◌, ◌∙◌, sym, ap, true, false, Option, none,
  some, List, [], ◌∷◌, String, eq_refl, arith, Bool-cases,
}
use actions_runner_scaleset.Nodecap.{
  Shape, Snapshot, Claim, Accountant, totals_of, mem_of, observed_mem, observed_vcpu, mem_credit,
  vcpu_credit, saturating_sub, reserve_for, state_from, state_locked, fits_locked, sweep_locked,
  sweep_claims, reserve_locked,
}
use actions_runner_scaleset.Nodecap.Ledger.{pending, pending_of, held_by, credits, committed-exact}
use actions_runner_scaleset.Nodecap.Cores.{pending_vcpus, credit_vcpus, committed_vcpu-exact}

-- What the reserve leaves of a node's memory.
abbrev pub usable : Accountant → Snapshot → String → ℕ
usable a snap node =
    (totals_of snap node).mem_bytes - reserve_for a.opts (totals_of snap node).mem_bytes

module _ (snap : Snapshot) where
  mem_credit-exact :
      (c : ℕ) (vs : List ℕ)
      → c + held_by snap vs < 2 ^ 64
      → mem_credit snap c vs ≡ c + held_by snap vs
  unfolding mem_credit held_by
  mem_credit-exact c [] h = omega arith
  mem_credit-exact c (v ∷ vs) h =
      let whole : (c + mem_of snap v) % 2 ^ 64 ≡ c + mem_of snap v = omega (arith, h) in
      rw whole (mem_credit-exact (c + mem_of snap v) vs (omega (arith, h)) ∙ omega arith)

  pub available-exact :
      (a : Accountant) (node : String)
      → (state_locked a snap node).available_bytes
        ≡ usable a snap node - (state_locked a snap node).committed_bytes
  unfolding state_locked state_from saturating_sub
  available-exact a node = ground arith

  pub fits_facts :
      (a : Accountant) (node : String) (shape : Shape) (freeing : List ℕ)
      → fits_locked a snap node shape freeing ≡ true
      → (shape.memory_bytes
          ≤ ((state_locked a snap node).available_bytes + mem_credit snap 0 freeing) % 2 ^ 64)
        × ((a.opts.cpu_gated ≡ false)
            ⊎ ((state_locked a snap node).committed_vcpu + shape.vcpus
                ≤ a.opts.vcpu_limit (totals_of snap node).vcpus + vcpu_credit snap freeing))
  unfolding fits_locked
  fits_facts a node shape freeing h = ground (arith, h)

  abbrev pub new_claim : Accountant → ℕ → String → Shape → List ℕ → Claim
  new_claim a now node shape freeing = record {
    id = a.next_res + 1;
    node = node;
    shape = shape;
    vmid = 0;
    freeing = freeing;
    expires = now + a.opts.reservation_ttl;
  }

  pub granted :
      (a : Accountant) (now : ℕ) (node : String) (shape : Shape) (freeing : List ℕ) (u : Accountant)
      (id : ℕ)
      → reserve_locked a snap now node shape freeing ≡ (u, some id)
      → (fits_locked (sweep_locked a snap now) snap node shape freeing ≡ true)
        × (u ≡ record a {
          res = new_claim a now node shape freeing ∷ sweep_claims snap now a.res;
          next_res = a.next_res + 1;
        })
  unfolding reserve_locked sweep_locked
  granted a now node shape freeing u id e =
      elim (Bool-cases (fits_locked (sweep_locked a snap now) snap node shape freeing)) [
        | inl f ↦ (f, sym (ap (λ (x : Accountant × Option ℕ). x.0) (rw (f, reserve_locked) at e)))
        | inr f ↦
            absurd
              (none_some id (ap (λ (x : Accountant × Option ℕ). x.1) (rw (f, reserve_locked) at e)))
      ]
    where
      none_some : (n : ℕ) → none ≡ some n → ⊥
      none_some n e = cc

  -- The new reservation counts in full.
  pending-new :
      (a : Accountant) (now : ℕ) (node : String) (shape : Shape) (freeing : List ℕ)
      (rs : List Claim)
      → (pending snap node (new_claim a now node shape freeing ∷ rs)
          ≡ shape.memory_bytes + pending snap node rs)
        × (credits snap node (new_claim a now node shape freeing ∷ rs)
            ≡ held_by snap freeing + credits snap node rs)
        × (pending_vcpus snap node (new_claim a now node shape freeing ∷ rs)
            ≡ shape.vcpus + pending_vcpus snap node rs)
        × (credit_vcpus snap node (new_claim a now node shape freeing ∷ rs)
            ≡ vcpu_credit snap freeing + credit_vcpus snap node rs)
  unfolding pending pending_of credits observed_mem pending_vcpus observed_vcpu credit_vcpus
  pending-new a now node shape freeing rs =
      rw (eq_refl node) (omega arith, omega arith, omega arith, omega arith)

  -- A reservation that ReserveFreeing grants, for sizes in the range of an int64: the committed bytes of
  -- its node are then at most what is usable, or at most what they were, if that was more already; and
  -- if vCPUs are gated the committed ones are at most the limit.
  pub reserve_within :
      (a : Accountant) (now : ℕ) (node : String) (shape : Shape) (freeing : List ℕ) (u : Accountant)
      (id : ℕ)
      → (totals_of snap node).mem_bytes < 2 ^ 63
      → (totals_of snap node).guest_mem
          + pending snap node (sweep_claims snap now a.res)
          + shape.memory_bytes
        < 2 ^ 63
      → credits snap node (sweep_claims snap now a.res) + held_by snap freeing < 2 ^ 63
      → reserve_locked a snap now node shape freeing ≡ (u, some id)
      → let swept = state_locked (sweep_locked a snap now) snap node in
        let after = state_locked u snap node in
        (after.committed_bytes ≤ max (usable a snap node) swept.committed_bytes)
        × ((a.opts.cpu_gated ≡ false)
            ⊎ (after.committed_vcpu ≤ a.opts.vcpu_limit (totals_of snap node).vcpus))
  unfolding sweep_locked
  reserve_within a now node shape freeing u id m p c e =
      let rs = sweep_claims snap now a.res in
      let swept = sweep_locked a snap now in
      let (f, w) = granted a now node shape freeing u id e in
      let new = pending-new a now node shape freeing rs in
      let facts = fits_facts swept node shape freeing f in
      let after : Accountant = record a {
        res = new_claim a now node shape freeing ∷ rs;
        next_res = a.next_res + 1;
      } in
      let before = committed-exact snap swept node (omega (arith, p), omega (arith, c)) in
      let now_bytes =
        committed-exact snap after node (omega (arith, p, new.0), omega (arith, c, new.1)) in
      let room = available-exact swept node in
      let credit = mem_credit-exact 0 freeing (omega (arith, c)) in
      rw w (
        omega (arith, before, now_bytes, new.0, new.1, room, credit, facts.0),
        elim facts.1 [
          | inl off ↦ inl off
          | inr fit ↦ inr (
              omega (
                arith,
                fit,
                committed_vcpu-exact snap swept node,
                committed_vcpu-exact snap after node,
                new.2,
                new.3,
              ))
        ],
      )
