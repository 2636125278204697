-- ===== src/Gh/Registrations/Waits.antt =====
-- The grace of cleanupOrphanRunners in internal/gh/reconciler.go.
use actions_runner_scaleset.Prelude.{
  ℕ, ◌+◌, ◌≡◌, ◌≤◌, ◌<◌, refl, inl, inr, ◌⊎◌, Bool, false, none, some, List, [], ◌∷◌, String,
  str_eq, eq_iff, contains, arith, ltb, map, All, All-map, In, Bool-cases, Option-cases,
  if◌then◌else◌,
}
use actions_runner_scaleset.Prelude.Dict.{lookup, erase, insert, lookup-erase, lookup-insert}
use actions_runner_scaleset.Store.{Vm}
use actions_runner_scaleset.Pool.Config.{RunnerInfo}
use actions_runner_scaleset.Gh.Registrations.{
  Clocks, Runners, drops_clock, prune_orphan_tracking, cleanup_runners, cleanup_orphan_runners,
}

-- A runner of the listing without a row whose clock has run for the grace.
abbrev pub IsStale : ℕ → ℕ → List String → Runners → Clocks → String × RunnerInfo → Type 0
IsStale grace now known listed start (name, gr) =
    (contains name known ≡ false)
    × In (name, gr) listed
    × ((first : ℕ) × (lookup str_eq name start ≡ some first) × (first + grace ≤ now))

module _ (grace now : ℕ) (known : List String) (removed : ℕ → Bool) (start : Clocks)
    (pos : 0 < grace) where
  -- Each clock is one of the start, or has just been set.
  abbrev IsFrom : Clocks → Type 0
  IsFrom clocks =
      (name : String) (first : ℕ)
      → lookup str_eq name clocks ≡ some first
      → (lookup str_eq name start ≡ some first) ⊎ (first ≡ now)

  insert-IsFrom :
      (j : String) (clocks : Clocks) → IsFrom clocks → IsFrom (insert str_eq j now clocks)
  insert-IsFrom j clocks h name first e = elim (Bool-cases (str_eq j name)) [
    | inl p ↦ inr (ground (arith, lookup-insert str_eq eq_iff j name now clocks))
    | inr p ↦ h name first (ground (arith, lookup-insert str_eq eq_iff j name now clocks))
  ]

  erase-IsFrom : (j : String) (clocks : Clocks) → IsFrom clocks → IsFrom (erase str_eq j clocks)
  erase-IsFrom j clocks h name first e =
      h name first (ground (arith, lookup-erase str_eq eq_iff j name clocks))

  expired :
      (name : String) (gr : RunnerInfo) (first : ℕ) (runners : Runners)
      → contains name known ≡ false
      → (lookup str_eq name start ≡ some first) ⊎ (first ≡ now)
      → ltb now (first + grace) ≡ false
      → IsStale grace now known ((name, gr) ∷ runners) start (name, gr)
  expired name gr first runners e (inl c) g = (e, inl refl, (first, c, ground arith))
  expired name gr first runners e (inr c) g = absurd (ground arith)

  later :
      (entry : String × RunnerInfo) (runners removals : Runners)
      → All (IsStale grace now known runners start) removals
      → All (IsStale grace now known (entry ∷ runners) start) removals
  later entry runners removals h = All-map removals (λ r s. (s.0, inr s.1, s.2)) h

  cleanup_runners-IsStale :
      (runners : Runners) (clocks : Clocks)
      → IsFrom clocks
      → All
          (IsStale grace now known runners start)
          (cleanup_runners grace now known removed runners clocks).1
  unfolding cleanup_runners
  cleanup_runners-IsStale [] clocks h = tt
  cleanup_runners-IsStale ((name, gr) ∷ runners) clocks h =
      elim (Bool-cases (contains name known)) [
        | inl e ↦
            rw (cleanup_runners, e)
              (later (name, gr) runners _ (cleanup_runners-IsStale runners clocks h))
        | inr e ↦ elim (Option-cases (lookup str_eq name clocks)) [
          | inl f ↦
              rw (cleanup_runners, e, f)
                (later (name, gr) runners _
                  (cleanup_runners-IsStale runners (insert str_eq name now clocks)
                    (insert-IsFrom name clocks h)))
          | inr (first, f) ↦ elim (Bool-cases (ltb now (first + grace))) [
            | inl g ↦
                rw (cleanup_runners, e, f, g)
                  (later (name, gr) runners _ (cleanup_runners-IsStale runners clocks h))
            | inr g ↦
                rw (cleanup_runners, e, f, g)
                  (
                    expired name gr first runners e (h name first f) g,
                    later (name, gr) runners _
                        (elim (Bool-cases (removed gr.id)) [
                          | inl d ↦ rw d (
                              cleanup_runners-IsStale runners (erase str_eq name clocks)
                                (erase-IsFrom name clocks h))
                          | inr d ↦ rw d (cleanup_runners-IsStale runners clocks h)
                        ]),
                  )
          ]
        ]
      ]

lookup-prune :
    (known : List String) (runners : Runners) (truncated : Bool) (clocks : Clocks) (name : String)
    → lookup str_eq name (prune_orphan_tracking known runners truncated clocks)
      ≡ (if drops_clock known runners truncated name then none else lookup str_eq name clocks)
unfolding prune_orphan_tracking lookup
lookup-prune known runners truncated [] name =
    elim (Bool-cases (drops_clock known runners truncated name)) [
      | inl e ↦ rw e refl
      | inr e ↦ rw e refl
    ]
lookup-prune known runners truncated ((j, first) ∷ rest) name =
    ground (arith, lookup-prune known runners truncated rest name, eq_iff j name)

-- Every runner that cleanupOrphanRunners removes from GitHub, with a grace above 0, is one of the
-- listing, has no row in the listing of the pool, and was first seen so in an earlier tick, at least
-- the grace ago.
pub removed-IsStale :
    (grace now : ℕ) (rows : List Vm) (removed : ℕ → Bool) (runners : Runners) (truncated : Bool)
    (clocks : Clocks)
    → 0 < grace
    → All
        (IsStale grace now (map (λ (r : Vm). r.name) rows) runners clocks)
        (cleanup_orphan_runners grace now rows removed runners truncated clocks).1
unfolding cleanup_orphan_runners
removed-IsStale grace now rows removed runners truncated clocks pos =
    let known = map (λ (r : Vm). r.name) rows in
    cleanup_runners-IsStale grace now known removed clocks pos runners
      (prune_orphan_tracking known runners truncated clocks)
      (λ name first e. inl (ground (arith, lookup-prune known runners truncated clocks name)))
