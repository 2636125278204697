-- ===== src/Pool/Sizing/Credit.antt =====
-- Caps, burst response and the conservation of returning VMs in computeCloneNeeds of
-- internal/pool/manager.go.
use Prim.Native.Nat.{min, max}
use native.Mathlib.Decide.{dec_le}
use actions_runner_scaleset.Prelude.{inl, inr, ℕ, ◌+◌, ◌-◌, ◌≡◌, ◌≤◌, ◌⊎◌, arith, ap}
use actions_runner_scaleset.Prelude.Int.{ℤ, pos, ◌+ℤ◌, ◌-ℤ◌, ◌≤ℤ◌, int_laws}
use actions_runner_scaleset.Pool.Sizing.{
  Stats, Demand, ReturningCredit, base, busy, live_warm, burst_deficit, compute_clone_needs,
}
use actions_runner_scaleset.Pool.Sizing.Needs.{compute_clone_needs-eq, covered, occupied}

cut_fits : (p o m : ℕ) → (min (p - o) m ≡ 0) ⊎ (o + min (p - o) m ≤ p)
cut_fits p o m = elim (dec_le p o) [ yes h ↦ inl (omega arith) | no h ↦ inr (omega arith) ]

cut_answers :
    (p o m a b : ℕ)
    → (pos p -ℤ pos o ≤ℤ pos (min (p - o) (max m (a - b))))
      ⊎ (pos a -ℤ pos b ≤ℤ pos (min (p - o) (max m (a - b))))
cut_answers p o m a b = elim (dec_le (p - o) (a - b)) [
  | yes h ↦ inl (omega int_laws)
  | no h ↦ inr (omega int_laws)
]

module _ (s : Stats) (d : Demand) (c : ReturningCredit) where
  abbrev needs : ℤ × ℤ
  needs = compute_clone_needs s d c

  hot-eq :
      needs.0
      ≡ pos (
          min (d.profile_max - occupied s d) (
            max
              (d.hot_size - (base s d + covered s d c))
              (d.desired - (base s d + c.recycling_credit + busy s))))
  hot-eq = ap (λ (p : ℤ × ℤ). p.0) (compute_clone_needs-eq s d c)

  warm-eq :
      needs.1
      ≡ pos (
          d.warm_size
          - (live_warm s + d.warm_prov + (c.busy_credit + c.recycling_credit - covered s d c)))
  warm-eq = ap (λ (p : ℤ × ℤ). p.1) (compute_clone_needs-eq s d c)

  -- Neither need is negative, and clones are only asked for while they fit under the profile's cap:
  -- if the hot need is not 0, the VMs that exist or are coming and the hot need together are at most
  -- profile_max.
  pub clone_needs_within_cap :
      (pos 0 ≤ℤ needs.0)
      × (pos 0 ≤ℤ needs.1)
      × (needs.0 ≡ pos 0 ⊎ (pos (occupied s d) +ℤ needs.0 ≤ℤ pos d.profile_max))
  clone_needs_within_cap =
      rw (hot-eq, warm-eq)
        (
          omega arith,
          omega arith,
          elim (cut_fits d.profile_max (occupied s d) _) [
            | inl z ↦ inl (ap pos z)
            | inr le ↦ inr (omega int_laws)
          ],
        )

  -- Queued demand is always answered: the hot need is at least the burst deficit, cut to the room
  -- under the cap, whatever busy VMs are credited as returning.
  pub burst_answered :
      (pos d.profile_max -ℤ pos (occupied s d) ≤ℤ needs.0) ⊎ (burst_deficit s d c ≤ℤ needs.0)
  unfolding burst_deficit
  burst_answered = rw hot-eq (cut_answers d.profile_max (occupied s d) _ d.desired _)

hot_shift :
    (r h a x k0 k : ℕ)
    → k0 ≤ k
    → min r (max (h - (a + k0)) x) ≤ min r (max (h - (a + k)) x) + (k - k0)
hot_shift r h a x k0 k le = ground arith

warm_shift : (w l e0 e : ℕ) → e0 ≤ e → w - (l + e0) ≤ w - (l + e) + (e - e0)
warm_shift w l e0 e le = omega arith

hot_le : (r h a x k0 k : ℕ) → k0 ≤ k → min r (max (h - (a + k)) x) ≤ min r (max (h - (a + k0)) x)
hot_le r h a x k0 k le = ground arith

covered_grows :
    (b r d : ℕ)
    → (min (0 + r) d ≤ min (b + r) d) × (min (b + r) d ≤ min (0 + r) d + b) × (min (0 + r) d ≤ r)
covered_grows b r d = (omega arith, omega arith, omega arith)

le-pos : {a b : ℕ} → a ≤ b → pos a ≤ℤ pos b
le-pos {a} {b} le = omega int_laws

warm_le : (w l e0 e : ℕ) → e0 ≤ e → w - (l + e) ≤ w - (l + e0)
warm_le w l e0 e le = omega arith

sum_shift :
    (h h' w w' b r k0 k : ℕ)
    → h' ≤ h + (k - k0)
    → w' ≤ w + ((b + r - k) - (0 + r - k0))
    → k0 ≤ k
    → k ≤ k0 + b
    → k0 ≤ r
    → pos h' +ℤ pos w' ≤ℤ pos h +ℤ pos w +ℤ pos b
sum_shift h h' w w' b r k0 k p q le ge le_r = omega int_laws

-- One returning VM covers one slot: against the run that credits no busy VM, the credit never adds a
-- clone, and it saves at most as many clones, hot and warm together, as there are credited VMs.
pub credit_conserved :
    (s : Stats) (d : Demand) (c : ReturningCredit)
    → let none_busy = record c { busy_credit = 0 } in
      let (hot, warm) = compute_clone_needs s d c in
      let (hot', warm') = compute_clone_needs s d none_busy in
      (hot ≤ℤ hot') × (warm ≤ℤ warm') × (hot' +ℤ warm' ≤ℤ hot +ℤ warm +ℤ pos c.busy_credit)
credit_conserved s d c =
    let b = base s d in
    let x = d.desired - (b + c.recycling_credit + busy s) in
    let r = d.profile_max - occupied s d in
    let none_busy = record c { busy_credit = 0 } in
    let k0 = covered s d none_busy in
    let k = covered s d c in
    let l = live_warm s + d.warm_prov in
    let e0 = 0 + c.recycling_credit - k0 in
    let e = c.busy_credit + c.recycling_credit - k in
    let (le, ge, le_r) = covered_grows c.busy_credit c.recycling_credit (d.hot_size - b) in
    let e_le : e0 ≤ e = omega arith in
    rw (hot-eq s d c, warm-eq s d c, hot-eq s d none_busy, warm-eq s d none_busy)
      (
        le-pos (hot_le r d.hot_size b x k0 k le),
        le-pos (warm_le d.warm_size l e0 e e_le),
        sum_shift _ _ _ _ c.busy_credit c.recycling_credit k0 k (hot_shift r d.hot_size b x k0 k le)
            (warm_shift d.warm_size l e0 e e_le) le ge le_r,
      )
