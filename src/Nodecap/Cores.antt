-- ===== src/Nodecap/Cores.antt =====
-- The vCPU side of the ledger of internal/nodecap/nodecap.go.
use actions_runner_scaleset.Prelude.{
  ℕ, inl, inr, ◌+◌, ◌-◌, ◌≡◌, List, [], ◌∷◌, String, str_eq, arith, ltb, Bool-cases, if◌then◌else◌,
}
use actions_runner_scaleset.Prelude.Int.{ℤ, pos, ◌+ℤ◌, ◌-ℤ◌, pos_part, neg_part, +ℤ_parts, -ℤ_parts}
use actions_runner_scaleset.Nodecap.{
  Snapshot, Claim, Accountant, totals_of, vcpu_of, observed_vcpu, freed_vcpu_delta,
  claim_vcpu_delta, vcpu_delta, vcpu_credit, state_from, state_locked,
}

unfoldable pub pending_vcpus : Snapshot → String → List Claim → ℕ
unfolding observed_vcpu
pending_vcpus snap node [] = 0
pending_vcpus snap node (r ∷ rs) =
    (if str_eq r.node node then r.shape.vcpus - observed_vcpu snap r else 0)
    + pending_vcpus snap node rs

unfoldable pub credit_vcpus : Snapshot → String → List Claim → ℕ
unfolding vcpu_credit
credit_vcpus snap node [] = 0
credit_vcpus snap node (r ∷ rs) =
    (if str_eq r.node node then vcpu_credit snap r.freeing else 0) + credit_vcpus snap node rs

module _ (snap : Snapshot) where
  freed_vcpu_parts :
      (d : ℤ) (vs : List ℕ)
      → pos_part (freed_vcpu_delta snap d vs) + neg_part d + vcpu_credit snap vs
        ≡ neg_part (freed_vcpu_delta snap d vs) + pos_part d
  unfolding freed_vcpu_delta vcpu_credit
  freed_vcpu_parts d [] = omega arith
  freed_vcpu_parts d (v ∷ vs) =
      omega
        (arith, freed_vcpu_parts (d -ℤ pos (vcpu_of snap v)) vs, -ℤ_parts d (pos (vcpu_of snap v)))

  claim_vcpu_parts :
      (d : ℤ) (r : Claim)
      → let e = claim_vcpu_delta snap d r in
        pos_part e + neg_part d + vcpu_credit snap r.freeing
        ≡ neg_part e + pos_part d + (r.shape.vcpus - observed_vcpu snap r)
  unfolding claim_vcpu_delta
  claim_vcpu_parts d r = elim (Bool-cases (ltb (observed_vcpu snap r) r.shape.vcpus)) [
    | inl e ↦
        let m = r.shape.vcpus - observed_vcpu snap r in
        rw (claim_vcpu_delta, e)
          (omega (arith, freed_vcpu_parts (d +ℤ pos m) r.freeing, +ℤ_parts d (pos m)))
    | inr e ↦
        let none_left : r.shape.vcpus - observed_vcpu snap r ≡ 0 = ground arith in
        rw (claim_vcpu_delta, e) (omega (arith, freed_vcpu_parts d r.freeing, none_left))
  ]

  vcpu_parts :
      (node : String) (d : ℤ) (rs : List Claim)
      → let e = vcpu_delta snap node d rs in
        pos_part e + neg_part d + credit_vcpus snap node rs
        ≡ neg_part e + pos_part d + pending_vcpus snap node rs
  unfolding vcpu_delta pending_vcpus credit_vcpus
  vcpu_parts node d [] = omega arith
  vcpu_parts node d (r ∷ rs) = elim (Bool-cases (str_eq r.node node)) [
    | inl e ↦
        rw (vcpu_delta, e)
          (omega (arith, vcpu_parts node (claim_vcpu_delta snap d r) rs, claim_vcpu_parts d r))
    | inr e ↦ rw (vcpu_delta, e) (omega (arith, vcpu_parts node d rs))
  ]

  plus_parts :
      (d : ℤ) (n p c : ℕ) → pos_part d + c ≡ neg_part d + p → pos_part (d +ℤ pos n) ≡ n + p - c
  unfolding ◌+ℤ◌
  plus_parts d n p c h = ground arith

  pub committed_vcpu-exact :
      (a : Accountant) (node : String)
      → (state_locked a snap node).committed_vcpu
        ≡ (totals_of snap node).guest_vcpu
          + pending_vcpus snap node a.res
          - credit_vcpus snap node a.res
  unfolding state_locked state_from
  committed_vcpu-exact a node =
      plus_parts (vcpu_delta snap node (pos 0) a.res) (totals_of snap node).guest_vcpu
        (pending_vcpus snap node a.res) (credit_vcpus snap node a.res)
        (omega (arith, vcpu_parts node (pos 0) a.res))
