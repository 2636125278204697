-- ===== src/Gh/Examples.antt =====
-- Instances of the theorems on internal/gh/reconciler.go.
use actions_runner_scaleset.Prelude.{
  ℕ, zero, suc, ◌≡◌, ◌≤◌, refl, true, false, some, [], ◌∷◌, arith, All, any, map, contains,
}
use actions_runner_scaleset.Store.{Vm, running}
use actions_runner_scaleset.Store.Sample.{sample_vm}
use actions_runner_scaleset.Pool.Config.{RunnerInfo}
use actions_runner_scaleset.Gh.{
  GhConfig, decide, is_known, sweep_proxmox_orphans, run_action, state_transition_table,
  gh_state_label, force_destroy,
}
use actions_runner_scaleset.Prelude.Dict.{lookup}
use actions_runner_scaleset.Gh.Listing.{
  PageAnswer, answered, failed, list_runners_by_prefix, list_pages, list_page_with_retry,
  is_transient_list_error,
}
use actions_runner_scaleset.Gh.Listing.Bounded.{AllNamed, listing_bounded}
use actions_runner_scaleset.Gh.Registrations.{
  cleanup_orphan_runners, cleanup_runners, prune_orphan_tracking, drops_clock,
}
use actions_runner_scaleset.Gh.Registrations.Waits.{IsStale, removed-IsStale}
use actions_runner_scaleset.Gh.Matrix.{decide-Justified, Justified}
use actions_runner_scaleset.Gh.Orphans.{orphans_wait, stale_clock_destroys, IsExpired}

abbrev graces : GhConfig
graces = record {
  assigned_grace = 300;
  running_idle_grace = 120;
  assigned_offline_grace = 60;
  orphan_grace = 60;
}

abbrev offline_runner : RunnerInfo
offline_runner = record { id = 8; online = false; busy = false }

decide_run :
    decide graces 130 (sample_vm 7 running 5) (some offline_runner) ≡ some (force_destroy 7)
unfolding decide run_action state_transition_table gh_state_label
decide_run = refl

decide-Justified_example :
    Justified graces 130
      (sample_vm 7 running 5)
      (some offline_runner)
      (decide graces 130 (sample_vm 7 running 5) (some offline_runner))
decide-Justified_example = decide-Justified graces 130 (sample_vm 7 running 5) (some offline_runner)

orphans_wait_example :
    All
      (IsExpired 60 100 (3 ∷ []) ((5, 20) ∷ []))
      (sweep_proxmox_orphans 60 100 (3 ∷ []) (λ k. true) (3 ∷ 5 ∷ []) ((5, 20) ∷ [])).1
orphans_wait_example =
    orphans_wait 60 100 (3 ∷ []) (λ k. true) (3 ∷ 5 ∷ []) ((5, 20) ∷ []) (omega arith)

-- VMID 5 drains at 20, is gone at 50 and is cloned again at 100.
stale_clock_destroys_example :
    (sweep_proxmox_orphans 60 100
      (3 ∷ [])
      (λ k. true)
      (5 ∷ [])
      (sweep_proxmox_orphans 60 50 (3 ∷ []) (λ k. true) (3 ∷ []) ((5, 20) ∷ [])).0).1
    ≡ 5 ∷ []
unfolding lookup is_known any
stale_clock_destroys_example =
    stale_clock_destroys 60 20 50 100 5 (3 ∷ []) (3 ∷ []) (λ k. true) (3 ∷ []) ((5, 20) ∷ []) refl
      refl refl refl (omega arith)

-- The first request fails with status 503, and the second gets two runners on the only page.
abbrev flaky_github : ℕ → ℕ → PageAnswer
flaky_github zero page = failed (some 503)
flaky_github (suc i) page =
    answered
      (record { name = "gh-runner-7"; info = offline_runner }
        ∷ record { name = "laptop"; info = offline_runner }
        ∷ [])
      0

flaky_run : (list_runners_by_prefix flaky_github "gh-").1 ≡ 2
unfolding list_runners_by_prefix list_pages list_page_with_retry is_transient_list_error
flaky_run = refl

listing_bounded_example :
    let (listing, requests) = list_runners_by_prefix flaky_github "gh-" in
    (requests ≤ 150) × AllNamed "gh-" listing
listing_bounded_example = listing_bounded flaky_github "gh-"

-- "gh-runner-9" has no row since time 10, "gh-runner-7" has one.
removed_run :
    (cleanup_orphan_runners 60 100
      (sample_vm 7 running 5 ∷ [])
      (λ id. true)
      (("vm-7", offline_runner) ∷ ("gh-runner-9", offline_runner) ∷ [])
      false
      (("gh-runner-9", 10) ∷ [])).1
    ≡ ("gh-runner-9", offline_runner) ∷ []
unfolding cleanup_orphan_runners cleanup_runners prune_orphan_tracking drops_clock lookup contains
removed_run = refl

removed-IsStale_example :
    All
      (IsStale 60 100
        (map (λ (r : Vm). r.name) (sample_vm 7 running 5 ∷ []))
        (("vm-7", offline_runner) ∷ ("gh-runner-9", offline_runner) ∷ [])
        (("gh-runner-9", 10) ∷ []))
      (cleanup_orphan_runners 60 100
        (sample_vm 7 running 5 ∷ [])
        (λ id. true)
        (("vm-7", offline_runner) ∷ ("gh-runner-9", offline_runner) ∷ [])
        false
        (("gh-runner-9", 10) ∷ [])).1
removed-IsStale_example =
    removed-IsStale 60 100 (sample_vm 7 running 5 ∷ []) (λ id. true)
      (("vm-7", offline_runner) ∷ ("gh-runner-9", offline_runner) ∷ []) false
      (("gh-runner-9", 10) ∷ []) (omega arith)
