-- ===== src/Nodecap/Sweep.antt =====
-- What sweepLocked of internal/nodecap/nodecap.go does to the ledger.
use actions_runner_scaleset.Prelude.{
  ℕ, inl, inr, ◌≡◌, ◌≤◌, ◌==◌, refl, true, false, List, [], ◌∷◌, String, arith, filter, Bool-cases,
  Option-cases, All,
}
use actions_runner_scaleset.Prelude.Dict.{lookup}
use actions_runner_scaleset.Nodecap.{
  Snapshot, Claim, Accountant, mem_of, observed_mem, state_locked, still_there, retires,
  sweep_locked, sweep_claims,
}
use actions_runner_scaleset.Nodecap.Ledger.{
  pending, pending_of, held_by, credits, InRange, committed-exact,
}

module _ (snap : Snapshot) (now : ℕ) where
  -- A VM that has left the snapshot holds nothing in it.
  gone : (v : ℕ) → still_there snap v ≡ false → mem_of snap v ≡ 0
  unfolding mem_of
  gone v e = elim (Option-cases (lookup ◌==◌ v snap.guest_mem)) [
    | inl n ↦ rw n refl
    | inr (m, s) ↦ absurd (cc (rw s at e))
  ]

  kept_credits : (vs : List ℕ) → held_by snap (filter (still_there snap) vs) ≡ held_by snap vs
  unfolding held_by filter
  kept_credits [] = refl
  kept_credits (v ∷ vs) = elim (Bool-cases (still_there snap v)) [
    | inl e ↦ rw e (omega (arith, kept_credits vs))
    | inr e ↦ rw e (omega (arith, kept_credits vs, gone v e))
  ]

  -- A reservation that retires has nothing pending.
  retired : (r : Claim) → now ≤ r.expires → retires snap now r ≡ true → pending_of snap r ≡ 0
  unfolding retires pending_of observed_mem
  retired r h e = ground (arith, h, e)

  swept_claims :
      (node : String) (rs : List Claim)
      → All (λ r. now ≤ r.expires) rs
      → (pending snap node (sweep_claims snap now rs) ≡ pending snap node rs)
        × (credits snap node (sweep_claims snap now rs) ≤ credits snap node rs)
  unfolding sweep_claims pending credits pending_of observed_mem
  swept_claims node [] h = (refl, omega arith)
  swept_claims node (r ∷ rs) h =
      let (p, c) = swept_claims node rs h.1 in
      elim (Bool-cases (retires snap now r)) [
        | inl e ↦ rw (sweep_claims, e) (ground (arith, p, retired r h.0 e), omega (arith, c))
        | inr e ↦ rw (sweep_claims, e) (omega (arith, p), ground (arith, c, kept_credits r.freeing))
      ]

  -- As long as no reservation is expired, a sweep never makes a node look emptier than it did in the
  -- same snapshot: it drops a reservation only once the guest row carries all of its memory, and
  -- forgets a victim only once that is gone. For sizes in the range of an int64.
  pub sweep_conservative :
      (a : Accountant) (node : String)
      → All (λ r. now ≤ r.expires) a.res
      → InRange snap node a.res
      → (state_locked a snap node).committed_bytes
        ≤ (state_locked (sweep_locked a snap now) snap node).committed_bytes
  unfolding sweep_locked
  sweep_conservative a node fresh (p, c) =
      let (same, less) = swept_claims node a.res fresh in
      omega (
        arith,
        same,
        less,
        committed-exact snap a node (p, c),
        committed-exact snap (sweep_locked a snap now) node
            (omega (arith, same, p), omega (arith, less, c)),
      )
