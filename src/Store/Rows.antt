-- ===== src/Store/Rows.antt =====
-- The rows that an index of internal/store yields, and the choice of the oldest.
use actions_runner_scaleset.Prelude.{
  ◌≡◌, ◌≤◌, refl, ◌⊎◌, subst, inl, inr, ◌↔◌, true, false, none, some, List, [], ◌∷◌, String, str_eq,
  arith, eq_iff, Bool-cases, In, All, In-filter, All-In, length, count, length-filter, ltb,
}
use actions_runner_scaleset.Store.{Vm, state_eq_iff, hot}
use actions_runner_scaleset.Store.Table.{Memdb, Index, selects, by_id, by_state, by_profile_state}
use actions_runner_scaleset.Store.Acquire.{oldest_from, hot_rows}

-- The choice is one of the rows, and none of them is older.
oldest_from_least :
    (best : Vm) (vs : List Vm)
    → (v : Vm) × (oldest_from (some best) vs ≡ some v)
      × ((best ≡ v) ⊎ In v vs)
      × (v.created_at ≤ best.created_at)
      × All (λ w. v.created_at ≤ w.created_at) vs
unfolding oldest_from
oldest_from_least best [] = (best, refl, inl refl, omega arith, tt)
oldest_from_least best (x ∷ xs) = elim (Bool-cases (ltb x.created_at best.created_at)) [
  | inl e ↦
      let (v, p, m, le, all) = oldest_from_least x xs in
      (v, rw (e, oldest_from) p, inr m, ground arith, (le, all))
  | inr e ↦
      let (v, p, m, le, all) = oldest_from_least best xs in
      (v, rw (e, oldest_from) p, ground (arith, m), le, (ground (arith, le), all))
]

pub oldest_from-In : (vs : List Vm) (v : Vm) → oldest_from none vs ≡ some v → In v vs
unfolding oldest_from
oldest_from-In [] v e = cc
oldest_from-In (x ∷ xs) v e =
    let (w, p, m, le, all) = oldest_from_least x xs in ground (arith, p, m)

pub oldest_from-le :
    (vs : List Vm) (v : Vm)
    → oldest_from none vs ≡ some v
    → All (λ w. v.created_at ≤ w.created_at) vs
unfolding oldest_from
oldest_from-le [] v e = tt
oldest_from-le (x ∷ xs) v e =
    let (w, p, m, le, all) = oldest_from_least x xs in
    let same : w ≡ v = ground (arith, p) in
    subst (λ (z : Vm). All (λ y. z.created_at ≤ y.created_at) (x ∷ xs)) same (le, all)

pub oldest_from-none : (vs : List Vm) → oldest_from none vs ≡ none → vs ≡ []
unfolding oldest_from
oldest_from-none [] e = refl
oldest_from-none (x ∷ xs) e = let (w, p, m, le, all) = oldest_from_least x xs in ground (arith, p)

module _ (db : Memdb) where
  open db use {Table, first, get, get-filter, first-get, get-first}

  -- An index yields the rows that a lookup finds and that have its values.
  pub In-get :
      (t : Table) (i : Index) (v : Vm)
      → In v (get t i) ↔ ((first t v.vmid ≡ some v) × (selects i v ≡ true))
  In-get t i v = (there, back)
    where
      there : In v (get t i) → (first t v.vmid ≡ some v) × (selects i v ≡ true)
      there m =
          let h = (In-filter (selects i) (get t by_id) v).0 (rw (get-filter t i) at m) in
          (All-In (λ w. first t w.vmid ≡ some w) _ v (first-get t) h.0, h.1)

      back : (first t v.vmid ≡ some v) × (selects i v ≡ true) → In v (get t i)
      back h =
          rw (get-filter t i)
            ((In-filter (selects i) (get t by_id) v).1 (get-first t v.vmid v h.0, h.1))

  pub length-get : (t : Table) (i : Index) → length (get t i) ≡ count (selects i) (get t by_id)
  length-get t i = rw (get-filter t i) (length-filter (selects i) (get t by_id))

  -- The candidates of a claim are the hot rows, of the profile if one is named.
  pub In-hot_rows :
      (t : Table) (profile : String) (v : Vm)
      → In v (hot_rows db t profile)
      → (first t v.vmid ≡ some v)
        × (v.state ≡ hot)
        × (str_eq profile "" ≡ false → v.profile ≡ profile)
  unfolding hot_rows selects
  In-hot_rows t profile v m = elim (Bool-cases (str_eq profile "")) [
    | inl e ↦
        let h = (In-get t (by_state hot) v).0 (rw (e, hot_rows) at m) in
        (h.0, (state_eq_iff v.state hot).0 h.1, λ n. cc)
    | inr e ↦
        let h = (In-get t (by_profile_state profile hot) v).0 (rw (e, hot_rows) at m) in
        (
          h.0,
          ground (arith, h.1, state_eq_iff v.state hot),
          λ n. ground (arith, h.1, eq_iff v.profile profile),
        )
  ]

  pub hot_rows-In :
      (t : Table) (profile : String) (v : Vm)
      → first t v.vmid ≡ some v
      → v.state ≡ hot
      → (profile ≡ "") ⊎ ((v.profile ≡ profile) × (str_eq v.profile "" ≡ false))
      → In v (hot_rows db t profile)
  unfolding hot_rows selects
  hot_rows-In t profile v f s (inl e) =
      rw (e, hot_rows) ((In-get t (by_state hot) v).1 (f, (state_eq_iff v.state hot).1 s))
  hot_rows-In t profile v f s (inr (e, n)) =
      rw (hot_rows, ← e, n)
        ((In-get t (by_profile_state v.profile hot) v).1
          (f, ground (arith, state_eq_iff v.state hot, eq_iff v.profile v.profile)))
