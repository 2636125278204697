-- ===== src/Pool/Sizing/Needs.antt =====
-- The clone counts of computeCloneNeeds of internal/pool/manager.go in closed form, and their bounds.
use Prim.Native.Nat.{min, max}
use actions_runner_scaleset.Prelude.{ℕ, ◌+◌, ◌-◌, ◌≡◌, ◌≤◌, arith}
use actions_runner_scaleset.Prelude.Int.{pos, ◌+ℤ◌, ◌-ℤ◌, int_laws}
use actions_runner_scaleset.Pool.Sizing.{
  Stats, Demand, ReturningCredit, base, available, busy, live_warm, at_most, at_least,
  burst_deficit, hot_credit, need_hot, need_warm, compute_clone_needs,
}

-- a - b on the native numbers, as the integer difference of a difference floored at 0.
diff_floor : (a b : ℕ) → at_least (pos 0) (pos a -ℤ pos b) ≡ pos (a - b)
unfolding ◌-ℤ◌
diff_floor a b = ground arith

-- How much of the credit covers the hot deficit, in truncated arithmetic.
abbrev pub covered : Stats → Demand → ReturningCredit → ℕ
covered s d c = min (c.busy_credit + c.recycling_credit) (d.hot_size - base s d)

hot_credit-covered :
    (s : Stats) (d : Demand) (c : ReturningCredit) → hot_credit s d c ≡ pos (covered s d c)
unfolding hot_credit ◌-ℤ◌
hot_credit-covered s d c = ground arith

abbrev pub occupied : Stats → Demand → ℕ
occupied s d = available s + s.recycling_n + d.hot_prov + d.inflight + busy s

-- The steps of the hot clamp, in truncated arithmetic.
sub_twice : (h a c : ℕ) → pos h -ℤ pos a -ℤ pos c ≡ pos h -ℤ pos (a + c)
sub_twice h a c = omega int_laws

larger_deficit :
    (d b h a : ℕ)
    → at_least (pos 0) (at_least (pos d -ℤ pos b) (pos h -ℤ pos a)) ≡ pos (max (h - a) (d - b))
unfolding ◌-ℤ◌
larger_deficit d b h a = ground arith

room_cut : (p o n : ℕ) → at_least (pos 0) (at_most (pos p -ℤ pos o) (pos n)) ≡ pos (min (p - o) n)
unfolding ◌-ℤ◌
room_cut p o n = ground arith

hot_clamp :
    (p o d b h a c : ℕ)
    → at_least (pos 0) (
        at_most
          (pos p -ℤ pos o)
          (at_least (pos 0) (at_least (pos d -ℤ pos b) (pos h -ℤ pos a -ℤ pos c))))
      ≡ pos (min (p - o) (max (h - (a + c)) (d - b)))
hot_clamp p o d b h a c =
    rw (sub_twice h a c, larger_deficit d b h (a + c)) (room_cut p o (max (h - (a + c)) (d - b)))

warm_clamp :
    (w l r c : ℕ)
    → c ≤ r
    → at_least (pos 0) (pos w -ℤ (pos l +ℤ (pos r -ℤ pos c))) ≡ pos (w - (l + (r - c)))
unfolding ◌-ℤ◌ ◌+ℤ◌
warm_clamp w l r c h = ground arith

-- computeCloneNeeds in truncated arithmetic: the hot need is the larger of the idle deficit that the
-- returning VMs do not cover and of the burst deficit, cut to the room under the profile's cap; the
-- warm need is the warm deficit less the returning VMs that did not cover a hot slot.
pub compute_clone_needs-eq :
    (s : Stats) (d : Demand) (c : ReturningCredit)
    → compute_clone_needs s d c ≡ (
      pos (
          min (d.profile_max - occupied s d) (
            max
              (d.hot_size - (base s d + covered s d c))
              (d.desired - (base s d + c.recycling_credit + busy s)))),
      pos (
          d.warm_size
          - (live_warm s + d.warm_prov + (c.busy_credit + c.recycling_credit - covered s d c))),
    )
unfolding compute_clone_needs need_hot need_warm burst_deficit
compute_clone_needs-eq s d c = rw (hot_credit-covered s d c) (
    cc (
      hot_clamp d.profile_max (occupied s d) d.desired (base s d + c.recycling_credit + busy s)
          d.hot_size (base s d) (covered s d c),
      warm_clamp d.warm_size (live_warm s + d.warm_prov) (c.busy_credit + c.recycling_credit)
          (covered s d c) (omega arith),
    ))
