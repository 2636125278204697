-- ===== src/Store/Capacity.antt =====
-- The caps of AcquireHotInProfile of internal/store/store.go, over any sequence of claims.
use actions_runner_scaleset.Prelude.{
  ℕ, ◌+◌, ◌==◌, ◌≡◌, ◌<◌, ◌≤◌, refl, inl, inr, ◌⊎◌, Bool, true, false, ◌&&◌, ◌||◌, some, List, [],
  ◌∷◌, String, str_eq, arith, eq_iff, Bool-cases, if◌then◌else◌, bit, count, All,
}
use actions_runner_scaleset.Store.{Vm, hot, assigned, running, state_eq, ok}
use actions_runner_scaleset.Store.Table.{Memdb, by_id, by_state, by_profile_state, selects}
use actions_runner_scaleset.Store.Acquire.{count_busy, hot_rows, claim, acquire_hot_in_profile}
use actions_runner_scaleset.Store.Rows.{length-get}
use actions_runner_scaleset.Store.Validity.{IsValid}
use actions_runner_scaleset.Store.Claims.{acquire_cases}

-- A row that serves a job, of the profile if one is named.
pub is_busy : String → Vm → Bool
is_busy profile v =
    (state_eq v.state assigned || state_eq v.state running)
    && (str_eq profile "" || str_eq v.profile profile)

-- Tests that exclude one another count together what their disjunction counts.
count_add :
    (p q r : Vm → Bool) (vs : List Vm)
    → ((v : Vm) → bit (p v) + bit (q v) ≡ bit (r v))
    → count p vs + count q vs ≡ count r vs
unfolding count
count_add p q r [] h = refl
count_add p q r (v ∷ vs) h = omega (arith, h v, count_add p q r vs h)

module _ (db : Memdb) where
  open db use {Table, first, get, put, first-put, first-vmid, count-put}

  busy_bits_all :
      (v : Vm)
      → bit (selects (by_state assigned) v) + bit (selects (by_state running) v)
        ≡ bit (is_busy "" v)
  unfolding selects is_busy state_eq
  busy_bits_all v = ground (arith, eq_iff "" "")

  busy_bits :
      (profile : String)
      → str_eq profile "" ≡ false
      → (v : Vm)
      → bit (selects (by_profile_state profile assigned) v)
          + bit (selects (by_profile_state profile running) v)
        ≡ bit (is_busy profile v)
  unfolding selects is_busy state_eq
  busy_bits profile h v =
      ground (arith, eq_iff v.profile profile, eq_iff v.profile "", eq_iff profile "")

  -- countBusy counts the busy rows.
  pub count_busy-count :
      (t : Table) (profile : String)
      → count_busy db t profile ≡ count (is_busy profile) (get t by_id)
  unfolding count_busy
  count_busy-count t profile = elim (Bool-cases (str_eq profile "")) [
    | inl e ↦
        let all = count_add _ _ _ (get t by_id) busy_bits_all in
        rw ((eq_iff profile "").0 e) (
          omega
            (arith, all, length-get db t (by_state assigned), length-get db t (by_state running)))
    | inr e ↦
        let mine = count_add _ _ _ (get t by_id) (busy_bits profile e) in
        rw e (
          omega (
            arith,
            mine,
            length-get db t (by_profile_state profile assigned),
            length-get db t (by_profile_state profile running),
          ))
  ]

  -- A claim of a hot row adds one to the busy rows of the profile that was asked for.
  busy_put :
      (t : Table) (profile asked : String) (v : Vm) (job_id now : ℕ)
      → first t v.vmid ≡ some v
      → v.state ≡ hot
      → (str_eq asked "" ≡ true) ⊎ (v.profile ≡ asked)
      → count_busy db (put t (claim v job_id now)) asked ≡ count_busy db t asked + 1
  unfolding claim is_busy state_eq
  busy_put t profile asked v job_id now f h p = ground (
    arith,
    count_busy-count t asked,
    count_busy-count (put t (claim v job_id now)) asked,
    count-put t (claim v job_id now) (is_busy asked),
    eq_iff v.profile asked,
  )

  -- A claim that succeeds on a valid table adds one busy row, to the fleet and to the profile asked
  -- for, and stays within both caps. It turns the oldest hot row of that profile into an assigned
  -- row of the job, and changes no other row.
  pub acquire-caps :
      (t u : Table) (w : Vm) (profile : String) (job_id max_concurrent max_busy now : ℕ)
      → IsValid db t
      → acquire_hot_in_profile db t profile job_id max_concurrent max_busy now ≡ (u, ok w)
      → (count_busy db u "" ≡ count_busy db t "" + 1)
        × (count_busy db u "" ≤ max_concurrent)
        × (count_busy db u profile ≡ count_busy db t profile + 1)
        × (0 < max_busy → count_busy db u profile ≤ max_busy)
        × ((v : Vm) × (first t v.vmid ≡ some v)
            × (v.state ≡ hot)
            × All (λ x. v.created_at ≤ x.created_at) (hot_rows db t profile)
            × (w ≡ record v {
              state = assigned;
              job_id = job_id;
              state_since = now;
              updated_at = now;
            })
            × ((k : ℕ) → first u k ≡ (if v.vmid == k then some w else first t k)))
  unfolding claim
  acquire-caps t u w profile job_id max_concurrent max_busy now h e =
      elim (acquire_cases db t profile job_id max_concurrent max_busy now h) [
        | inl (full, r) ↦ absurd (cc (e, r))
        | inr (inl (n, z, r)) ↦ absurd (cc (e, r))
        | inr (inr (v, c, r)) ↦
            let at_u : u ≡ put t (claim v job_id now) = ground (arith, e, r) in
            let at_w : w ≡ claim v job_id now = ground (arith, e, r) in
            let fleet =
              busy_put t profile "" v job_id now c.found c.is_hot
                (inl (ground (arith, eq_iff "" ""))) in
            let mine =
              busy_put t profile profile v job_id now c.found c.is_hot
                (profile_of profile v c.in_profile) in
            rw (at_u, at_w)
              (
                fleet,
                omega (arith, fleet, c.has_room),
                mine,
                λ pos. omega (arith, mine, c.has_profile_room pos),
                (v, c.found, c.is_hot, c.is_oldest, refl, λ k. first-put t (claim v job_id now) k),
              )
      ]
    where
      profile_of :
          (p : String) (v : Vm)
          → (str_eq p "" ≡ false → v.profile ≡ p)
          → (str_eq p "" ≡ true) ⊎ (v.profile ≡ p)
      profile_of p v f = elim (Bool-cases (str_eq p "")) [ inl e ↦ inl e | inr e ↦ inr (f e) ]
