-- ===== src/Pool/Eviction/Commits.antt =====
-- startEviction of internal/pool/capacity.go beside the transactions of other goroutines.
use actions_runner_scaleset.Prelude.{
  ℕ, ◌+◌, ◌≡◌, ◌≢◌, refl, inl, inr, ap, sym, Bool, true, false, Option, none, some, List, [], ◌∷◌,
  ◌++◌, map, if◌then◌else◌, arith, All, Bool-cases,
}
use actions_runner_scaleset.Store.{Vm, State, warm, hot, draining, state_eq, state_eq_iff}
use actions_runner_scaleset.Store.Table.{Memdb}
use actions_runner_scaleset.Store.Read.{is_one_of}
use actions_runner_scaleset.Store.Write.{enter}
use actions_runner_scaleset.Store.Validity.{IsValid, update_state-IsValid}
use actions_runner_scaleset.Store.Transitions.{Replaces}
use actions_runner_scaleset.Store.Steps.{Reach-IsValid}
use actions_runner_scaleset.Store.Guards.{update_state-Outcome, Outcome-spares}
use actions_runner_scaleset.Pool.Handlers.{Effect, destroy_async, set_since}
use actions_runner_scaleset.Pool.Sweeps.{Others}
use actions_runner_scaleset.Pool.Eviction.{
  EvictionCandidate, EvictionPlan, idle_state, commit_victims, finish_eviction, start_eviction,
}

-- What startEviction does for the VMs that it committed.
abbrev pub Carries :
    {R : Type 0}
    → (List ℕ → Option R)
    → List EvictionCandidate
    → Bool × Option R × List Effect
    → Type 0
Carries reserve [] (did, parked, effects) = (did ≡ false) × (parked ≡ none) × (effects ≡ [])
Carries reserve (v ∷ vs) (did, parked, effects) =
    (did ≡ true)
    × (parked ≡ reserve (map (λ c. c.row.vmid) (v ∷ vs)))
    × (effects ≡ map (λ c. destroy_async c.row.vmid c.row.node c.row.profile) (v ∷ vs))

finish_eviction-Carries :
    (db : Memdb) (others : Others db) (clock : ℕ → ℕ) {R : Type 0} (reserve : List ℕ → Option R)
    (committed : List EvictionCandidate)
    → Carries reserve committed (finish_eviction db others clock reserve committed)
unfolding finish_eviction
finish_eviction-Carries db others clock reserve [] = (refl, refl, refl)
finish_eviction-Carries db others clock reserve (v ∷ vs) = (refl, refl, refl)

differs : (a b : State) → b ≢ a → state_eq a b ≡ false
differs a b n = elim (Bool-cases (state_eq a b)) [
  | inl e ↦ absurd (n (sym ((state_eq_iff a b).0 e)))
  | inr e ↦ e
]

-- The row of a candidate is in the idle state that it was a candidate for.
abbrev pub IsIdle : EvictionCandidate → Vm → Type 0
IsIdle c cur = cur.state ≡ (if c.preferred then warm else hot)

-- The row of an evicted VM, moved at the time `now`.
abbrev pub evicted : Vm → ℕ → Vm
evicted cur now = record cur { state = draining; state_since = now; updated_at = now }

module _ (db : Memdb) (others : Others db) (clock : ℕ → ℕ) where
  open db use {Table, first}

  -- The writes for the victims of a plan, from the write `i`: each committed victim is found idle and
  -- moves to draining, and the first one that is not found idle ends the writes.
  pub data Evicts
      : ℕ → Table → List EvictionCandidate → Table → List EvictionCandidate → Type 0 where
    planned : {i : ℕ} {t : Table} → Evicts i t [] t []
    left :
        {i : ℕ} {t : Table} {c : EvictionCandidate} {vs : List EvictionCandidate}
        → ((cur : Vm) → first (others i t).0 c.row.vmid ≡ some cur → ¬ IsIdle c cur)
        → Evicts i t (c ∷ vs) (others i t).0 []
    moves :
        {i : ℕ} {t w u : Table} {c : EvictionCandidate} {vs committed : List EvictionCandidate}
        (cur : Vm)
        → first (others i t).0 c.row.vmid ≡ some cur
        → IsIdle c cur
        → Replaces db (others i t).0 w c.row.vmid (evicted cur (clock i))
        → Evicts (i + 1) w vs u committed
        → Evicts i t (c ∷ vs) u (c ∷ committed)

  is_one_of-IsIdle :
      (c : EvictionCandidate) (cur : Vm)
      → (is_one_of cur.state (idle_state db others clock c ∷ []) ≡ true → IsIdle c cur)
        × (is_one_of cur.state (idle_state db others clock c ∷ []) ≡ false → ¬ IsIdle c cur)
  unfolding is_one_of
  is_one_of-IsIdle c cur = (
    λ e. sym ((state_eq_iff (idle_state db others clock c) cur.state).0 (ground (arith, e))),
    λ e q.
        absurd
          (ground (arith, e, (state_eq_iff (idle_state db others clock c) cur.state).1 (sym q))),
  )

  commit_victims-Evicts :
      (i : ℕ) (vs : List EvictionCandidate) (t : Table)
      → IsValid db t
      → let (u, committed) = commit_victims db others clock i vs t in Evicts i t vs u committed
  unfolding commit_victims enter
  commit_victims-Evicts i [] t h = planned
  commit_victims-Evicts i (c ∷ vs) t h =
      let before = (others i t).0 in
      let h' = Reach-IsValid db h (others i t).1 in
      let idle = idle_state db others clock c in
      let mutate = set_since (clock i) in
      let valid = update_state-IsValid db before c.row.vmid idle draining mutate (clock i) h' in
      elim (update_state-Outcome db before c.row.vmid idle draining mutate (clock i)
        (λ x. (refl, refl, refl)) h') [
          | inl (cur, u, at, s, e, z) ↦
              rw (commit_victims, e)
                (moves cur at ((is_one_of-IsIdle c cur).0 s) z
                  (commit_victims-Evicts (i + 1) vs u (rw e at valid)))
          | inr (n, e) ↦
              rw (commit_victims, e) (left (λ cur f. (is_one_of-IsIdle c cur).1 (n cur f)))
        ]

module _ (db : Memdb) (others : Others db) (clock : ℕ → ℕ) (k : ℕ) (v : Vm)
    (not_warm : v.state ≢ warm) (not_hot : v.state ≢ hot)
    (kept : (i : ℕ) (t : db.Table)
      → db.first t k ≡ some v
      → db.first (others i t).0 k ≡ some v) where
  open db use {Table, first}

  abbrev Holds : Table → Type 0
  Holds t = IsValid db t × (first t k ≡ some v)

  not_idle : (c : EvictionCandidate) → is_one_of v.state (idle_state db others clock c ∷ []) ≡ false
  unfolding is_one_of
  not_idle c = elim (Bool-cases c.preferred) [
    | inl e ↦ rw e (ground (arith, differs warm v.state not_warm))
    | inr e ↦ rw e (ground (arith, differs hot v.state not_hot))
  ]

  not_it :
      (c : EvictionCandidate) (t : Table) (cur : Vm)
      → c.row.vmid ≡ k
      → first t c.row.vmid ≡ some cur
      → is_one_of cur.state (idle_state db others clock c ∷ []) ≡ true
      → first t k ≡ some v
      → ⊥
  not_it c t cur q at s f =
      let here : first t k ≡ some cur = rw q at at in
      let one : v ≡ cur = ground (arith, here, f) in cc (one, s, not_idle c)

  abbrev Committed : List EvictionCandidate → Table × List EvictionCandidate → Type 0
  Committed vs (u, committed) =
      (rest : List EvictionCandidate) × (vs ≡ committed ++ rest)
      × Holds u
      × All (λ c. c.row.vmid ≢ k) committed

  commit_victims-Committed :
      (i : ℕ) (vs : List EvictionCandidate) (t : Table)
      → Holds t
      → Committed vs (commit_victims db others clock i vs t)
  unfolding commit_victims enter
  commit_victims-Committed i [] t h = ([], refl, h, tt)
  commit_victims-Committed i (c ∷ vs) t (h, f) =
      let before = (others i t).0 in
      let h' = Reach-IsValid db h (others i t).1 in
      let idle = idle_state db others clock c in
      let mutate = set_since (clock i) in
      let valid = update_state-IsValid db before c.row.vmid idle draining mutate (clock i) h' in
      let out =
        update_state-Outcome db before c.row.vmid idle draining mutate (clock i)
          (λ x. (refl, refl, refl)) h' in
      let spared =
        Outcome-spares db before c.row.vmid (idle ∷ []) _ _ out k v (kept i t f) (not_idle c) in
      elim out [
        | inl (cur, u, at, s, e, z) ↦
            rw (commit_victims, e)
              (let (rest, split, holds, apart) =
                  commit_victims-Committed (i + 1) vs u (rw e at valid, rw e at spared) in
                (
                  rest,
                  ap (◌∷◌ c) split,
                  holds,
                  (λ q. not_it c before cur q at s (kept i t f), apart),
                ))
        | inr (n, e) ↦ rw (commit_victims, e) (c ∷ vs, refl, (h', kept i t f), tt)
      ]

  -- startEviction, for any plan and any answer of the accountant, whatever the other goroutines do to
  -- the rows between its writes: the committed victims are the first ones of the plan, exactly they are
  -- destroyed, their capacity is reserved as the accountant answers, and nothing happens if there are
  -- none. Each committed victim was in its idle state at its write, which moved its row to draining and
  -- changed no other row, and the first victim that was not ends the writes. A row that is neither warm nor hot, and that the other goroutines leave alone, stays as it
  -- is, and its VM is not among the committed ones, even if the plan names it.
  pub start_eviction-exact :
      {R : Type 0} (reserve : List ℕ → Option R) (plan : EvictionPlan) (t : Table)
      → IsValid db t
      → first t k ≡ some v
      → let (u, did, parked, effects) = start_eviction db others clock reserve plan t in
        (first u k ≡ some v)
        × ((committed : List EvictionCandidate) × (rest : List EvictionCandidate) × (plan.victims
              ≡ committed ++ rest)
            × Carries reserve committed (did, parked, effects)
            × All (λ c. c.row.vmid ≢ k) committed
            × Evicts db others clock 0 t plan.victims u committed)
  unfolding start_eviction finish_eviction
  start_eviction-exact reserve plan t h f =
      let (rest, split, holds, apart) = commit_victims-Committed 0 plan.victims t (h, f) in
      (
        holds.1,
        (
          (commit_victims db others clock 0 plan.victims t).1,
          rest,
          split,
          finish_eviction-Carries db others clock reserve _,
          apart,
          commit_victims-Evicts db others clock 0 plan.victims t h,
        ),
      )
