-- ===== src/Canary/Revert.antt =====
-- The automatic revert of internal/canary/canary.go over any sequence of calls for one profile.
use actions_runner_scaleset.Prelude.{
  ℕ, ◌+◌, ◌==◌, ◌≡◌, ◌≤◌, refl, inl, inr, Bool, true, false, not, ◌&&◌, ◌||◌, none, some, List, [],
  ◌∷◌, arith, bit, count, ltb, Bool-cases,
}
use actions_runner_scaleset.Canary.{
  Template, stable, candidate, ProfileState, pick, record_clone, record_failure, promote,
}

pub data Call : Type 0 where
  clones fails : Template → Call
  promotes : Call

-- One call, with what RecordFailure reports.
unfoldable pub call : ℕ → ProfileState → Call → ProfileState × Bool
call min_samples ps (clones t) = (record_clone ps t, false)
call min_samples ps (fails t) = record_failure min_samples ps t
call min_samples ps promotes = elim (promote ps) [ none ↦ (ps, false) | some next ↦ (next, false) ]

-- The calls in order, with the number of reverts that they report.
unfoldable pub calls : ℕ → ProfileState → List Call → ProfileState × ℕ
calls min_samples ps [] = (ps, 0)
calls min_samples ps (c ∷ cs) =
    let (next, b) = call min_samples ps c in
    let (last, n) = calls min_samples next cs in (last, bit b + n)

abbrev pub is_promote : Call → Bool
is_promote (clones t) = false
is_promote (fails t) = false
is_promote promotes = true

-- What construction and every call keep: after a revert no share is left.
abbrev pub IsSound : ProfileState → Type 0
IsSound ps = ps.reverted ≡ true → ps.percent ≡ 0

-- The reverts that are still to come, before a promotion allows another.
abbrev pub budget : ProfileState → ℕ
budget ps = bit (not ps.reverted)

failure_step :
    (min_samples : ℕ) (ps : ProfileState)
    → IsSound ps
    → let (next, b) = record_failure min_samples ps candidate in
      IsSound next × (bit b + budget next ≡ budget ps)
unfolding record_failure
failure_step min_samples ps h =
    elim (Bool-cases (not ps.rate_set || ltb ps.canary_clones min_samples)) [
      | inl e ↦ rw (record_failure, e) (h, omega arith)
      | inr e ↦
          let hit = ps.rate_exceeded (ps.canary_failures + 1) ps.canary_clones && not ps.reverted in
          elim (Bool-cases hit) [
            | inl f ↦
                rw (record_failure, e, f)
                  (
                    λ r. refl,
                    open_before (ps.rate_exceeded (ps.canary_failures + 1) ps.canary_clones)
                        ps.reverted f,
                  )
            | inr f ↦ rw (record_failure, e, f) (h, omega arith)
          ]
    ]
  where
    open_before : (x r : Bool) → (x && not r) ≡ true → 1 + 0 ≡ bit (not r)
    open_before x r e = ground arith

call_step :
    (min_samples : ℕ) (ps : ProfileState) (c : Call)
    → IsSound ps
    → let (next, b) = call min_samples ps c in
      IsSound next × (bit b + budget next ≤ budget ps + bit (is_promote c))
unfolding call record_clone record_failure promote
call_step min_samples ps (clones stable) h = (h, omega arith)
call_step min_samples ps (clones candidate) h = (h, omega arith)
call_step min_samples ps (fails stable) h = (h, omega arith)
call_step min_samples ps (fails candidate) h =
    let (s, e) = failure_step min_samples ps h in (s, omega (arith, e))
call_step min_samples ps promotes h = promote_step ps h
  where
    promote_step :
        (ps : ProfileState)
        → IsSound ps
        → let (next, b) = call min_samples ps promotes in
          IsSound next × (bit b + budget next ≤ budget ps + 1)
    promote_step ps h = elim (Bool-cases (ps.candidate_vmid == 0)) [
      | inl e ↦ rw (call, promote, e) (h, omega arith)
      | inr e ↦ rw (call, promote, e) (λ r. cc, omega arith)
    ]

-- Over any calls of RecordClone, RecordFailure and Promote for a profile whose share is 0 if it has
-- been reverted, as New leaves it: the reverts that RecordFailure reports are at most one more than
-- the promotions, and while the profile is reverted at the end, Pick gives every VMID the stable
-- template.
pub reverts_once :
    (min_samples : ℕ) (ps : ProfileState) (cs : List Call)
    → IsSound ps
    → let (last, n) = calls min_samples ps cs in
      (n ≤ 1 + count is_promote cs)
      × (last.reverted ≡ true → (vmid : ℕ) → pick last vmid ≡ (last.stable_vmid, stable))
unfolding pick calls count
reverts_once min_samples ps cs h =
    let (last, n) = calls min_samples ps cs in
    let (sound, bound) = walk ps cs h in
    (omega (arith, bound, bit_le (not ps.reverted)), λ r vmid. no_share last vmid (sound r))
  where
    bit_le : (b : Bool) → bit b ≤ 1
    bit_le b = ground arith

    no_share : (p : ProfileState) (vmid : ℕ) → p.percent ≡ 0 → pick p vmid ≡ (p.stable_vmid, stable)
    no_share p vmid e = rw e (ground arith)

    walk :
        (ps : ProfileState) (cs : List Call)
        → IsSound ps
        → let (last, n) = calls min_samples ps cs in
          IsSound last × (n + budget last ≤ budget ps + count is_promote cs)
    walk ps [] h = (h, omega arith)
    walk ps (c ∷ cs) h =
        let (s, step) = call_step min_samples ps c h in
        let (sound, rest) = walk (call min_samples ps c).0 cs s in
        (sound, omega (arith, step, rest))
