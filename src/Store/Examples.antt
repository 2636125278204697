-- ===== src/Store/Examples.antt =====
-- Runs of internal/store on a small table, and instances of its theorems.
use actions_runner_scaleset.Prelude.{
  ℕ, ◌≡◌, refl, inl, inr, ◌⊎◌, some, List, [], ◌∷◌, arith, ◌≤◌, filter,
}
use actions_runner_scaleset.Store.{
  Vm, hot, assigned, running, ok, at_capacity, none_available, state_eq,
}
use actions_runner_scaleset.Store.Table.{selects, lacks_index}
use actions_runner_scaleset.Store.Write.{delete, commit_row}
use actions_runner_scaleset.Store.Acquire.{acquire_hot_in_profile, count_busy, oldest_from, claim}
use actions_runner_scaleset.Store.Lookup.{SameIdentity}
use actions_runner_scaleset.Store.Claims.{IsFull}
use actions_runner_scaleset.Store.Steps.{
  Reach, here, next, deletes as deletes_step, Step-SameIdentity,
}
use actions_runner_scaleset.Store.Bursts.{
  acquire_errors, acquire_succeeds, burst_caps, burst, IsClaimable, DistinctVms, Request,
}
use actions_runner_scaleset.Store.Model.{
  Call, inserts, deletes, updates, transitions, gets, promised_all,
}
use actions_runner_scaleset.Store.Model.Refines.{made_all, calls_refine}
use actions_runner_scaleset.Store.Sample.{list_db, sample_vm, fleet, Rows, fleet-IsValid}

-- The oldest hot row is claimed, under a cap of two.
acquire_run :
    (acquire_hot_in_profile list_db fleet "" 42 2 0 100).1
    ≡ ok (record (sample_vm 5 assigned 10) { job_id = 42; updated_at = 100; state_since = 100 })
unfolding acquire_hot_in_profile oldest_from claim commit_row lacks_index filter selects state_eq
acquire_run = refl

abbrev history : Reach list_db fleet (delete list_db (delete list_db fleet 5) 3)
history = next (next here (deletes_step 5)) (deletes_step 3)

Step-SameIdentity_example : SameIdentity (sample_vm 3 hot 20) (sample_vm 3 hot 20)
unfolding delete
Step-SameIdentity_example =
    Step-SameIdentity list_db 3 (sample_vm 3 hot 20) (sample_vm 3 hot 20) (deletes_step 5)
      fleet-IsValid refl refl

acquire_errors_example :
    (fleet ≡ fleet)
    × (((at_capacity ≡ at_capacity) × IsFull list_db fleet "" 42 1 0 100)
        ⊎ ((at_capacity ≡ none_available)
            × (¬ IsFull list_db fleet "" 42 1 0 100)
            × ((k : ℕ) (v : Vm) → list_db.first fleet k ≡ some v → ¬ IsClaimable "" v)))
unfolding acquire_hot_in_profile oldest_from claim commit_row lacks_index filter selects state_eq
acquire_errors_example =
    acquire_errors list_db fleet fleet at_capacity "" 42 1 0 100 fleet-IsValid refl

room : ¬ IsFull list_db fleet "" 42 2 0 100
unfolding count_busy filter selects state_eq
room (inl h) = omega arith
room (inr h) = omega arith

abbrev claimed : Rows × Vm
claimed = let w = claim (sample_vm 5 hot 10) 42 100 in (list_db.put fleet w, w)

acquire_succeeds_example :
    (u : Rows) × (w : Vm) × (acquire_hot_in_profile list_db fleet "" 42 2 0 100 ≡ (u, ok w))
acquire_succeeds_example =
    acquire_succeeds list_db fleet 3 (sample_vm 3 hot 20) "" 42 2 0 100 fleet-IsValid room refl
      (refl, inl refl)

abbrev three_jobs : List Request
three_jobs =
    record { profile = ""; job_id = 1; max_busy = 0; now = 100 }
    ∷ record { profile = "default"; job_id = 2; max_busy = 3; now = 101 }
    ∷ record { profile = ""; job_id = 3; max_busy = 0; now = 102 }
    ∷ []

within : count_busy list_db fleet "" ≤ 2
unfolding count_busy filter selects state_eq
within = omega arith

burst_caps_example : DistinctVms list_db (burst list_db fleet 2 three_jobs).1
burst_caps_example = (burst_caps list_db fleet 2 three_jobs fleet-IsValid within).2

-- VMID 7 is taken, 9 is new and then starts; a job comes for it, and VMID 5 goes.
abbrev calls : List Call
calls =
    inserts (sample_vm 7 hot 90) 90
    ∷ inserts (sample_vm 9 hot 91) 91
    ∷ transitions 9 (hot ∷ assigned ∷ []) running (λ v. v) 92
    ∷ updates 9 (λ v. record v { job_id = 42 }) 93
    ∷ updates 9 (λ v. record v { vmid = 10 }) 94
    ∷ deletes 5
    ∷ gets 5
    ∷ []

calls_refine_example :
    let (u, replies) = made_all list_db fleet calls in
    promised_all (list_db.first fleet) calls ≡ (list_db.first u, replies)
calls_refine_example = calls_refine list_db fleet calls fleet-IsValid
