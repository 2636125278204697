-- ===== src/Gh/Registrations.antt =====
-- cleanupOrphanRunners and pruneOrphanTracking of internal/gh/reconciler.go: the runners that are
-- registered at GitHub and have no row.
pub mod Waits
use actions_runner_scaleset.Prelude.{
  ℕ, ◌+◌, ◌==◌, Bool, true, false, not, ◌&&◌, ◌||◌, Option, none, some, List, [], ◌∷◌, String,
  str_eq, contains, is_some, ltb, map, if◌then◌else◌,
}
use actions_runner_scaleset.Prelude.Dict.{lookup, erase, insert}
use actions_runner_scaleset.Store.{Vm}
use actions_runner_scaleset.Pool.Config.{RunnerInfo}

-- orphanFirstSeen
abbrev pub Clocks : Type 0
Clocks = List (String × ℕ)

abbrev pub Runners : Type 0
Runners = List (String × RunnerInfo)

-- Whether pruneOrphanTracking drops the clock of a name.
unfoldable pub drops_clock : List String → Runners → Bool → String → Bool
unfolding contains lookup
drops_clock known [] truncated name = contains name known
drops_clock known (r ∷ rs) truncated name =
    if contains name known
    then true
    else if truncated
    then false
    else not (is_some (lookup str_eq name (r ∷ rs)))

unfoldable pub prune_orphan_tracking : List String → Runners → Bool → Clocks → Clocks
unfolding drops_clock
prune_orphan_tracking known runners truncated [] = []
prune_orphan_tracking known runners truncated ((name, first) ∷ rest) =
    let pruned = prune_orphan_tracking known runners truncated rest in
    if drops_clock known runners truncated name then pruned else (name, first) ∷ pruned

-- The loop over the runners: the clocks that are left, and the runners whose removal is asked for.
-- `removed` says whether that removal succeeds, a 404 included.
unfoldable pub cleanup_runners :
    ℕ → ℕ → List String → (ℕ → Bool) → Runners → Clocks → Clocks × Runners
unfolding contains lookup insert erase
cleanup_runners grace now known removed [] clocks = (clocks, [])
cleanup_runners grace now known removed ((name, gr) ∷ runners) clocks =
    if contains name known
    then cleanup_runners grace now known removed runners clocks
    else elim (lookup str_eq name clocks) [
      | none ↦ cleanup_runners grace now known removed runners (insert str_eq name now clocks)
      | some first ↦
          if ltb now (first + grace)
          then cleanup_runners grace now known removed runners clocks
          else (let (left, rest) =
                cleanup_runners grace now known removed runners
                  (if removed gr.id then erase str_eq name clocks else clocks) in
              (left, (name, gr) ∷ rest))
    ]

-- cleanupOrphanRunners
unfoldable pub cleanup_orphan_runners :
    ℕ → ℕ → List Vm → (ℕ → Bool) → Runners → Bool → Clocks → Clocks × Runners
unfolding cleanup_runners prune_orphan_tracking
cleanup_orphan_runners grace now rows removed runners truncated clocks =
    let known = map (λ r. r.name) rows in
    cleanup_runners grace now known removed runners
      (prune_orphan_tracking known runners truncated clocks)
