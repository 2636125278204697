-- ===== src/Pool/Sweeps/Shrink.antt =====
-- shrinkHotPool and shrinkWarmPool of internal/pool/manager.go reach their targets when no other
-- goroutine writes meanwhile.
use Prim.Native.Nat.{min, max}
use actions_runner_scaleset.Prelude.{
  ℕ, ◌-◌, ◌≡◌, ◌≤◌, ◌<◌, refl, inl, inr, String, arith, length, ltb, leb, Bool-cases, if◌then◌else◌,
}
use actions_runner_scaleset.Store.{warm, hot, state_eq}
use actions_runner_scaleset.Store.Table.{Memdb}
use actions_runner_scaleset.Store.Read.{count_by_profile_state}
use actions_runner_scaleset.Store.Write.{enter}
use actions_runner_scaleset.Store.Validity.{IsValid}
use actions_runner_scaleset.Pool.Handlers.{set_since}
use actions_runner_scaleset.Pool.Sweeps.{shrink_hot_pool, shrink_warm_pool}
use actions_runner_scaleset.Pool.Sweeps.Drains.{quiet, drained_to}

module _ (db : Memdb) where
  open db use {Table}

  hot_shrinks :
      (clock : ℕ → ℕ) (t : Table) (profile : String) (hot_size desired busy : ℕ)
      → IsValid db t
      → let target = max hot_size (desired - busy) in
        let hots = count_by_profile_state db t profile hot in
        let (u, effects) =
          shrink_hot_pool db (quiet db) clock t t profile hot_size desired busy t in
        (count_by_profile_state db u profile hot ≡ min hots target)
        × (length effects ≡ hots - target)
  unfolding shrink_hot_pool enter state_eq
  hot_shrinks clock t profile hot_size desired busy h =
      let target = max hot_size (desired - busy) in
      let burst : (if ltb hot_size (desired - busy) then desired - busy else hot_size) ≡ target =
        ground arith in
      let hots = count_by_profile_state db t profile hot in
      rw (shrink_hot_pool, burst)
        (elim (Bool-cases (leb hots target)) [
          | inl e ↦
              let le : hots ≤ target = ground arith in rw e (omega (arith, le), omega (arith, le))
          | inr e ↦
              let gt : target < hots = ground arith in
              let (left, queued) =
                drained_to db profile hot clock (λ i. set_since (clock i)) t target
                  (λ i x. (refl, refl, refl)) (λ i x. refl) refl h in
              rw e (omega (arith, left, gt), queued)
        ])

  warm_shrinks :
      (clock : ℕ → ℕ) (t : Table) (profile : String) (warm_size : ℕ)
      → IsValid db t
      → let warms = count_by_profile_state db t profile warm in
        let (u, effects) = shrink_warm_pool db (quiet db) clock t t profile warm_size t in
        (count_by_profile_state db u profile warm ≡ min warms warm_size)
        × (length effects ≡ warms - warm_size)
  unfolding shrink_warm_pool enter state_eq
  warm_shrinks clock t profile warm_size h =
      let warms = count_by_profile_state db t profile warm in
      elim (Bool-cases (leb warms warm_size)) [
        | inl e ↦
            let le : warms ≤ warm_size = ground arith in
            rw (shrink_warm_pool, e) (omega (arith, le), omega (arith, le))
        | inr e ↦
            let gt : warm_size < warms = ground arith in
            let (left, queued) =
              drained_to db profile warm clock (λ i v. v) t warm_size (λ i x. (refl, refl, refl))
                (λ i x. refl) refl h in
            rw (shrink_warm_pool, e) (omega (arith, left, gt), queued)
      ]

  -- shrinkHotPool and shrinkWarmPool, when no other goroutine writes meanwhile: on any valid table, the
  -- hot rows of the profile end at the larger of the hot size and the desired count less the busy
  -- rows, and the warm rows at the warm size, or as they were if they were no more; and one destroy
  -- is queued for each row over that target.
  pub shrink_reaches_target :
      (clock : ℕ → ℕ) (t : Table) (profile : String) (hot_size desired busy warm_size : ℕ)
      → IsValid db t
      → let target = max hot_size (desired - busy) in
        let hots = count_by_profile_state db t profile hot in
        let warms = count_by_profile_state db t profile warm in
        let (u, effects) =
          shrink_hot_pool db (quiet db) clock t t profile hot_size desired busy t in
        let (w, destroys) = shrink_warm_pool db (quiet db) clock t t profile warm_size t in
        (count_by_profile_state db u profile hot ≡ min hots target)
        × (length effects ≡ hots - target)
        × (count_by_profile_state db w profile warm ≡ min warms warm_size)
        × (length destroys ≡ warms - warm_size)
  shrink_reaches_target clock t profile hot_size desired busy warm_size h =
      let (a, b) = hot_shrinks clock t profile hot_size desired busy h in
      let (c, d) = warm_shrinks clock t profile warm_size h in (a, b, c, d)
