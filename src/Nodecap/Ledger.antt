-- ===== src/Nodecap/Ledger.antt =====
-- The ledger of internal/nodecap/nodecap.go as the formula that its comment states.
use actions_runner_scaleset.Prelude.{
  ℕ, inl, inr, ◌+◌, ◌-◌, ◌^◌, ◌≡◌, ◌≤◌, ◌<◌, ◌∙◌, sym, ap, List, [], ◌∷◌, String, str_eq, arith,
  ltb, Bool-cases, if◌then◌else◌,
}
use actions_runner_scaleset.Prelude.Int.{ℤ, pos, negsuc, ◌+ℤ◌, ◌-ℤ◌, pos_part, neg_part, sub_ℕ}
use actions_runner_scaleset.Prelude.Words.{wrap64, wrap64_id}
use actions_runner_scaleset.Nodecap.{
  Snapshot, Claim, Accountant, totals_of, mem_of, observed_mem, freed_delta, claim_delta, mem_delta,
  add_clamped, saturating_sub, state_from, state_locked,
}

-- The terms of the formula: what a reservation still adds, and what its victims still hold.
unfoldable pub pending_of : Snapshot → Claim → ℕ
unfolding observed_mem
pending_of snap r = r.shape.memory_bytes - observed_mem snap r

unfoldable pub held_by : Snapshot → List ℕ → ℕ
held_by snap [] = 0
held_by snap (v ∷ vs) = mem_of snap v + held_by snap vs

unfoldable pub pending : Snapshot → String → List Claim → ℕ
pending snap node [] = 0
pending snap node (r ∷ rs) =
    (if str_eq r.node node then pending_of snap r else 0) + pending snap node rs

unfoldable pub credits : Snapshot → String → List Claim → ℕ
credits snap node [] = 0
credits snap node (r ∷ rs) =
    (if str_eq r.node node then held_by snap r.freeing else 0) + credits snap node rs

sub_parts : (d : ℤ) → sub_ℕ (pos_part d) (neg_part d) ≡ d
sub_parts (pos n) = ground arith
sub_parts (negsuc n) = ground arith

sub_cong : (a b c d : ℕ) → a + d ≡ c + b → sub_ℕ a b ≡ sub_ℕ c d
sub_cong a b c d h = ground arith

add_small :
    (d : ℤ) (m : ℕ)
    → pos_part d + m < 2 ^ 63
    → neg_part d < 2 ^ 63
    → wrap64 (d +ℤ wrap64 (pos m)) ≡ sub_ℕ (pos_part d + m) (neg_part d)
unfolding ◌+ℤ◌
add_small d m h k =
    rw (wrap64_id (pos m) (omega (arith, h)) (omega arith))
      (wrap64_id (d +ℤ pos m) (ground arith) (ground arith) ∙ sub_cong _ _ _ _ (omega arith))

take_small :
    (d : ℤ) (m : ℕ)
    → pos_part d < 2 ^ 63
    → neg_part d + m < 2 ^ 63
    → wrap64 (d -ℤ wrap64 (pos m)) ≡ sub_ℕ (pos_part d) (neg_part d + m)
unfolding ◌-ℤ◌
take_small d m h k =
    rw (wrap64_id (pos m) (omega (arith, k)) (omega arith))
      (wrap64_id (d -ℤ pos m) (ground arith) (ground arith) ∙ sub_cong _ _ _ _ (omega arith))

sub_bounds :
    (a b : ℕ)
    → (pos_part (sub_ℕ a b) ≤ a)
      × (neg_part (sub_ℕ a b) ≤ b)
      × (pos_part (sub_ℕ a b) + b ≡ a + neg_part (sub_ℕ a b))
sub_bounds a b = ground arith

module _ (snap : Snapshot) where
  freed_delta-exact :
      (d : ℤ) (vs : List ℕ)
      → pos_part d < 2 ^ 63
      → neg_part d + held_by snap vs < 2 ^ 63
      → freed_delta snap d vs ≡ sub_ℕ (pos_part d) (neg_part d + held_by snap vs)
  unfolding freed_delta held_by
  freed_delta-exact d [] h k = sym (sub_parts d) ∙ sub_cong _ _ _ _ (omega arith)
  freed_delta-exact d (v ∷ vs) h k =
      let m = mem_of snap v in
      let e = sub_ℕ (pos_part d) (neg_part d + m) in
      let b = sub_bounds (pos_part d) (neg_part d + m) in
      rw (take_small d m h (omega (arith, k))) (
        freed_delta-exact e vs (omega (arith, b.0, h)) (omega (arith, b.1, k))
        ∙ sub_cong _ _ _ _ (omega (arith, b.2)))

  claim_delta-exact :
      (d : ℤ) (r : Claim)
      → pos_part d + pending_of snap r < 2 ^ 63
      → neg_part d + held_by snap r.freeing < 2 ^ 63
      → claim_delta snap d r
        ≡ sub_ℕ (pos_part d + pending_of snap r) (neg_part d + held_by snap r.freeing)
  unfolding claim_delta pending_of
  claim_delta-exact d r h k = elim (Bool-cases (ltb (observed_mem snap r) r.shape.memory_bytes)) [
    | inl e ↦
        let m = r.shape.memory_bytes - observed_mem snap r in
        let b = sub_bounds (pos_part d + m) (neg_part d) in
        rw (claim_delta, e, add_small d m h (omega (arith, k)))
          (freed_delta-exact (sub_ℕ (pos_part d + m) (neg_part d)) r.freeing (omega (arith, b.0, h))
              (omega (arith, b.1, k))
            ∙ sub_cong _ _ _ _ (omega (arith, b.2)))
    | inr e ↦
        let none_left : r.shape.memory_bytes - observed_mem snap r ≡ 0 = ground arith in
        rw (claim_delta, e)
          (freed_delta-exact d r.freeing (omega (arith, h)) k
            ∙ sub_cong _ _ _ _ (omega (arith, none_left)))
  ]

  mem_delta-exact :
      (node : String) (d : ℤ) (rs : List Claim)
      → pos_part d + pending snap node rs < 2 ^ 63
      → neg_part d + credits snap node rs < 2 ^ 63
      → mem_delta snap node d rs
        ≡ sub_ℕ (pos_part d + pending snap node rs) (neg_part d + credits snap node rs)
  unfolding mem_delta pending credits
  mem_delta-exact node d [] h k = sym (sub_parts d) ∙ sub_cong _ _ _ _ (omega arith)
  mem_delta-exact node d (r ∷ rs) h k = elim (Bool-cases (str_eq r.node node)) [
    | inl e ↦
        let p = pending_of snap r in
        let f = held_by snap r.freeing in
        let b = sub_bounds (pos_part d + p) (neg_part d + f) in
        let h' : pos_part d + (p + pending snap node rs) < 2 ^ 63 = rw e at h in
        let k' : neg_part d + (f + credits snap node rs) < 2 ^ 63 = rw e at k in
        rw (mem_delta, e, claim_delta-exact d r (omega (arith, h')) (omega (arith, k')))
          (mem_delta-exact node (sub_ℕ (pos_part d + p) (neg_part d + f)) rs
              (omega (arith, b.0, h')) (omega (arith, b.1, k'))
            ∙ sub_cong _ _ _ _ (omega (arith, b.2)))
    | inr e ↦
        let h' : pos_part d + (0 + pending snap node rs) < 2 ^ 63 = rw e at h in
        let k' : neg_part d + (0 + credits snap node rs) < 2 ^ 63 = rw e at k in
        rw (mem_delta, e)
          (mem_delta-exact node d rs (omega (arith, h')) (omega (arith, k'))
            ∙ sub_cong _ _ _ _ (omega arith))
  ]

  -- The byte counts of a node stay in the range of an int64.
  abbrev pub InRange : String → List Claim → Type 0
  InRange node rs =
      ((totals_of snap node).guest_mem + pending snap node rs < 2 ^ 63)
      × (credits snap node rs < 2 ^ 63)

  pub add_clamped-exact :
      (base p f : ℕ) → base + p < 2 ^ 63 → add_clamped base (sub_ℕ p f) ≡ base + p - f
  unfolding add_clamped saturating_sub
  add_clamped-exact base p f h = ground arith

  -- stateLocked: the committed bytes of a node are the allocations of its guests and what each
  -- reservation there still adds, less what the VMs that are being freed still hold, and not below 0.
  pub committed-exact :
      (a : Accountant) (node : String)
      → InRange node a.res
      → (state_locked a snap node).committed_bytes
        ≡ (totals_of snap node).guest_mem + pending snap node a.res - credits snap node a.res
  unfolding state_locked state_from
  committed-exact a node (h, k) =
      ap (add_clamped (totals_of snap node).guest_mem) (
        mem_delta-exact node (pos 0) a.res (omega (arith, h)) (omega (arith, k))
        ∙ sub_cong _ _ _ _ (omega arith))
      ∙ add_clamped-exact (totals_of snap node).guest_mem (pending snap node a.res)
          (credits snap node a.res) h
