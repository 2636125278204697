-- ===== src/Store/Claims.antt =====
-- The outcomes of AcquireHotInProfile of internal/store/store.go.
use actions_runner_scaleset.Prelude.{
  ℕ, ◌≡◌, ◌≤◌, ◌<◌, refl, inl, inr, ◌⊎◌, true, false, none, some, [], String, str_eq, arith,
  Option-cases, Bool-cases, All, leb,
}
use actions_runner_scaleset.Store.{Vm, hot, Result, ok, err, at_capacity, none_available}
use actions_runner_scaleset.Store.Table.{Memdb, lacks_index}
use actions_runner_scaleset.Store.Write.{commit_row}
use actions_runner_scaleset.Store.Acquire.{
  oldest_from, count_busy, over_busy, hot_rows, claim, acquire_hot_in_profile,
}
use actions_runner_scaleset.Store.Rows.{
  oldest_from-In, oldest_from-le, oldest_from-none, In-hot_rows,
}
use actions_runner_scaleset.Store.Validity.{IsValid, IsProper}

module _ (db : Memdb) where
  open db use {Table, first, put}

  module _ (t : Table) (profile : String) (job_id max_concurrent max_busy now : ℕ) where
    -- A cap is reached: the one of the fleet, or the one of the call.
    abbrev pub IsFull : Type 0
    IsFull =
        (max_concurrent ≤ count_busy db t "")
        ⊎ ((0 < max_busy) × (max_busy ≤ count_busy db t profile))

    -- The row that is claimed, and why it may be.
    pub record Claims (v : Vm) : Type 0 where
      pub found : first t v.vmid ≡ some v
      pub is_hot : v.state ≡ hot
      pub in_profile : str_eq profile "" ≡ false → v.profile ≡ profile
      pub is_oldest : All (λ w. v.created_at ≤ w.created_at) (hot_rows db t profile)
      pub has_room : count_busy db t "" < max_concurrent
      pub has_profile_room : 0 < max_busy → count_busy db t profile < max_busy

    abbrev call : Table × Result Vm
    call = acquire_hot_in_profile db t profile job_id max_concurrent max_busy now

    pub claim-IsProper :
        (v : Vm) → IsValid db t → first t v.vmid ≡ some v → IsProper (claim v job_id now)
    unfolding claim lacks_index
    claim-IsProper v h f = h.proper v.vmid v f

    over_busy-true :
        over_busy db t profile max_busy ≡ true
        → (0 < max_busy) × (max_busy ≤ count_busy db t profile)
    unfolding over_busy
    over_busy-true o = ground arith

    room_left :
        leb max_concurrent (count_busy db t "") ≡ false
        → over_busy db t profile max_busy ≡ false
        → (count_busy db t "" < max_concurrent)
          × (0 < max_busy → count_busy db t profile < max_busy)
    unfolding over_busy
    room_left room under = (ground arith, λ pos. ground arith)

    not-IsFull :
        (count_busy db t "" < max_concurrent) × (0 < max_busy → count_busy db t profile < max_busy)
        → ¬ IsFull
    not-IsFull room (inl h) = omega arith
    not-IsFull room (inr h) = omega (arith, room.1 h.0)

    Claims-oldest :
        (v : Vm)
        → leb max_concurrent (count_busy db t "") ≡ false
        → over_busy db t profile max_busy ≡ false
        → oldest_from none (hot_rows db t profile) ≡ some v
        → Claims v
    Claims-oldest v room under e =
        let h = In-hot_rows db t profile v (oldest_from-In _ v e) in
        let r = room_left room under in
        record {
          found = h.0;
          is_hot = h.1;
          in_profile = h.2;
          is_oldest = oldest_from-le _ v e;
          has_room = r.0;
          has_profile_room = r.1;
        }

    commit_claim :
        (v : Vm)
        → IsValid db t
        → first t v.vmid ≡ some v
        → commit_row db t (claim v job_id now) (claim v job_id now)
          ≡ (put t (claim v job_id now), ok (claim v job_id now))
    unfolding commit_row
    commit_claim v h f = rw ((claim-IsProper v h f).1) refl

    -- On a valid table a claim is refused at a cap, finds no hot row, or claims the oldest one.
    pub acquire_cases :
        IsValid db t
        → (IsFull × (call ≡ (t, err at_capacity)))
          ⊎ ((¬ IsFull × (hot_rows db t profile ≡ []) × (call ≡ (t, err none_available)))
              ⊎ ((v : Vm) × Claims v
                  × (call ≡ (put t (claim v job_id now), ok (claim v job_id now)))))
    unfolding acquire_hot_in_profile
    acquire_cases h = elim (Bool-cases (leb max_concurrent (count_busy db t ""))) [
      | inl full ↦ inl (inl (ground arith), rw full refl)
      | inr room ↦ elim (Bool-cases (over_busy db t profile max_busy)) [
        | inl over ↦ inl (inr (over_busy-true over), rw (room, over) refl)
        | inr under ↦ elim (Option-cases (oldest_from none (hot_rows db t profile))) [
          | inl e ↦ inr (
              inl (
                not-IsFull (room_left room under),
                oldest_from-none _ e,
                rw (room, under, e, acquire_hot_in_profile) refl,
              ))
          | inr (v, e) ↦
              let c = Claims-oldest v room under e in
              inr
                (inr (v, c, rw (room, under, e, acquire_hot_in_profile) (commit_claim v h c.found)))
        ]
      ]
    ]
