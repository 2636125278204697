-- ===== src/Gh/Matrix.antt =====
-- What the transition table of internal/gh/reconciler.go does with a row.
use actions_runner_scaleset.Prelude.{
  ℕ, ◌+◌, ◌≡◌, ◌≢◌, ◌≤◌, refl, inl, inr, ◌⊎◌, true, false, Option, none, some, arith, ltb,
  Bool-cases, if◌then◌else◌,
}
use actions_runner_scaleset.Store.{Vm, State, hot, assigned, running, recycling}
use actions_runner_scaleset.Pool.Config.{RunnerInfo}
use actions_runner_scaleset.Gh.{
  GhConfig, missing_label, offline_label, busy_label, idle_label, gh_state_label,
  state_transition_table, run_action, decide, Command, promote_to_running, force_destroy,
}

-- GitHub reports the runner of the row as online and busy.
abbrev pub IsServing : Option RunnerInfo → Type 0
IsServing gr = (r : RunnerInfo) × (gr ≡ some r) × (r.online ≡ true) × (r.busy ≡ true)

-- The row has been in its state for the grace.
abbrev pub IsPast : ℕ → ℕ → Vm → Type 0
IsPast grace now row = row.state_since + grace ≤ now

-- Why a row may be destroyed.
abbrev pub IsDoomed : GhConfig → ℕ → Vm → Option RunnerInfo → Type 0
IsDoomed cfg now row gr =
    ((row.state ≡ assigned)
      × ((((r : RunnerInfo) × (gr ≡ some r) × (r.online ≡ false))
            × IsPast cfg.assigned_offline_grace now row)
          ⊎ (((gr ≡ none)
                ⊎ ((r : RunnerInfo) × (gr ≡ some r) × (r.online ≡ true) × (r.busy ≡ false)))
              × IsPast cfg.assigned_grace now row)))
    ⊎ ((row.state ≡ running)
        × ((gr ≡ none) ⊎ ((¬ IsServing gr) × (gr ≢ none) × IsPast cfg.running_idle_grace now row)))

label_cases :
    (gr : Option RunnerInfo)
    → ((gr ≡ none) × (gh_state_label gr ≡ missing_label))
      ⊎ (((r : RunnerInfo) × (gr ≡ some r) × (r.online ≡ false))
          × (gh_state_label gr ≡ offline_label))
      ⊎ (IsServing gr × (gh_state_label gr ≡ busy_label))
      ⊎ (((r : RunnerInfo) × (gr ≡ some r) × (r.online ≡ true) × (r.busy ≡ false))
          × (gh_state_label gr ≡ idle_label))
unfolding gh_state_label
label_cases none = inl (refl, refl)
label_cases (some r) = elim (Bool-cases r.online) [
  | inr e ↦ inr (inl ((r, refl, e), rw e refl))
  | inl e ↦ elim (Bool-cases r.busy) [
    | inl b ↦ inr (inr (inl ((r, refl, e, b), rw (e, b) refl)))
    | inr b ↦ inr (inr (inr ((r, refl, e, b), rw (e, b) refl)))
  ]
]

module _ (cfg : GhConfig) (now : ℕ) (row : Vm) (gr : Option RunnerInfo) where
  -- What a decision says of the row.
  abbrev pub Justified : Option Command → Type 0
  Justified none = Unit {0}
  Justified (some (promote_to_running k runner job)) =
      (k ≡ row.vmid) × ((row.state ≡ assigned) ⊎ (row.state ≡ hot)) × IsServing gr
  Justified (some (force_destroy k)) = (k ≡ row.vmid) × IsDoomed cfg now row gr

  graced :
      (grace : GhConfig → ℕ)
      → (IsPast (grace cfg) now row → IsDoomed cfg now row gr)
      → Justified
          (if ltb now (row.state_since + grace cfg) then none else some (force_destroy row.vmid))
  graced grace doom = elim (Bool-cases (ltb now (row.state_since + grace cfg))) [
    | inl e ↦ rw e tt
    | inr e ↦ rw e (refl, doom (ground arith))
  ]

  quiet :
      ((r : RunnerInfo) × (gr ≡ some r) × ((r.online ≡ false) ⊎ (r.busy ≡ false)))
      → (¬ IsServing gr) × (gr ≢ none)
  quiet (r, e, idle) = (λ (q, f, o, b). not_both r q (ground (arith, e, f)) o b idle, λ n. cc)
    where
      not_both :
          (r q : RunnerInfo)
          → r ≡ q
          → q.online ≡ true
          → q.busy ≡ true
          → (r.online ≡ false) ⊎ (r.busy ≡ false)
          → ⊥
      not_both r q s o b (inl x) = cc
      not_both r q s o b (inr x) = cc

  decide_in :
      (s : State)
      → row.state ≡ s
      → Justified (run_action cfg now row gr (state_transition_table s (gh_state_label gr)))
  unfolding run_action state_transition_table
  decide_in assigned e = elim (label_cases gr) [
    | inl (n, l) ↦ rw l (graced (λ c. c.assigned_grace) (λ p. inl (e, inr (inl n, p))))
    | inr (inl (o, l)) ↦ rw l (graced (λ c. c.assigned_offline_grace) (λ p. inl (e, inl (o, p))))
    | inr (inr (inl (b, l))) ↦ rw l (refl, inl e, b)
    | inr (inr (inr (i, l))) ↦ rw l (graced (λ c. c.assigned_grace) (λ p. inl (e, inr (inr i, p))))
  ]
  decide_in running e = elim (label_cases gr) [
    | inl (n, l) ↦ rw l (refl, inr (e, inl n))
    | inr (inl ((r, g, o), l)) ↦ rw l (
        graced (λ c. c.running_idle_grace)
          (λ p. (let (a, b) = quiet (r, g, inl o) in inr (e, inr (a, b, p)))))
    | inr (inr (inl (b, l))) ↦ rw l tt
    | inr (inr (inr ((r, g, o, b), l))) ↦ rw l (
        graced (λ c. c.running_idle_grace)
          (λ p. (let (x, y) = quiet (r, g, inr b) in inr (e, inr (x, y, p)))))
  ]
  decide_in recycling e = tt
  decide_in hot e = elim (label_cases gr) [
    | inl (n, l) ↦ rw l tt
    | inr (inl (o, l)) ↦ rw l tt
    | inr (inr (inl (b, l))) ↦ rw l (refl, inr e, b)
    | inr (inr (inr (i, l))) ↦ rw l tt
  ]
  decide_in s e = tt

-- Every decision of the reconciler about a row is justified: it promotes only an assigned or hot row
-- whose runner is online and busy; it destroys only the row itself, and only if it is assigned and
-- its runner has been offline, idle or missing past the grace for that, or if it is running and its
-- runner is missing, or is there without serving a job and the running grace is over. A row whose
-- runner is online and busy is never destroyed, nor is one in any other state.
pub decide-Justified :
    (cfg : GhConfig) (now : ℕ) (row : Vm) (gr : Option RunnerInfo)
    → Justified cfg now row gr (decide cfg now row gr)
unfolding decide
decide-Justified cfg now row gr = decide_in cfg now row gr row.state refl
