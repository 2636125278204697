-- ===== src/Store/Read.antt =====
-- The read methods of internal/store/store.go. A read transaction sees one table.
use actions_runner_scaleset.Prelude.{
  ℕ, Bool, true, false, not, ◌&&◌, none, some, List, [], ◌∷◌, ◌++◌, map, String, str_eq, filter,
  length, leb, if◌then◌else◌,
}
use actions_runner_scaleset.Store.{
  Vm, State, PoolKind, state_eq, all_states, Result, ok, err, not_found,
}
use actions_runner_scaleset.Store.Table.{
  Memdb, Index, by_id, by_state, by_pool_kind_state, by_profile, by_profile_state, by_org, by_repo,
  by_priority_class,
}

-- `_, ok := allowed[state]` over a set built from `states`
unfoldable pub is_one_of : State → List State → Bool
is_one_of s [] = false
is_one_of s (x ∷ xs) = let rest = is_one_of s xs in if state_eq x s then true else rest

module _ (db : Memdb) where
  open db use {Table, first, get}

  -- Get
  unfoldable pub get_row : Table → ℕ → Result Vm
  get_row t vmid = elim (first t vmid) [ none ↦ err not_found | some row ↦ ok row ]

  -- List
  unfoldable pub list : Table → List Vm
  list t = get t by_id

  -- ListByState
  unfoldable pub list_by_state : Table → List State → List Vm
  list_by_state t [] = []
  list_by_state t (s ∷ states) = get t (by_state s) ++ list_by_state t states

  -- ListExcludingStates
  unfoldable pub list_excluding_states : Table → List State → List Vm
  unfolding list
  list_excluding_states t excluded = filter (λ v. not (is_one_of v.state excluded)) (list t)

  -- Count, CountByPoolKindState, CountByProfileState
  unfoldable pub count_by : Table → Index → ℕ
  count_by t i = length (get t i)

  unfoldable pub count_state : Table → State → ℕ
  unfolding count_by
  count_state t s = count_by t (by_state s)

  unfoldable pub count_by_pool_kind_state : Table → PoolKind → State → ℕ
  unfolding count_by
  count_by_pool_kind_state t k s = count_by t (by_pool_kind_state k s)

  unfoldable pub count_by_profile_state : Table → String → State → ℕ
  unfolding count_by
  count_by_profile_state t p s = count_by t (by_profile_state p s)

  -- ListByProfile
  unfoldable pub list_by_profile : Table → String → List Vm
  list_by_profile t p = get t (by_profile p)

  -- CountByOrg, CountByRepo: an empty name counts nothing
  unfoldable pub count_by_org : Table → String → ℕ
  unfolding count_by
  count_by_org t o = if str_eq o "" then 0 else count_by t (by_org o)

  unfoldable pub count_by_repo : Table → String → ℕ
  unfolding count_by
  count_by_repo t r = if str_eq r "" then 0 else count_by t (by_repo r)

  -- ListByPriorityClass
  unfoldable pub list_by_priority_class : Table → String → List Vm
  list_by_priority_class t c = if str_eq c "" then [] else get t (by_priority_class c)

  -- ListByProfileAndStates
  unfoldable pub list_by_profile_and_states : Table → String → List State → List Vm
  list_by_profile_and_states t p [] = []
  list_by_profile_and_states t p (s ∷ states) =
      get t (by_profile_state p s) ++ list_by_profile_and_states t p states

  -- Stats, StatsByProfile: a count for each state
  unfoldable pub stats : Table → List (State × ℕ)
  unfolding count_by
  stats t = map (λ s. (s, count_by t (by_state s))) all_states

  unfoldable pub stats_by_profile : Table → String → List (State × ℕ)
  unfolding count_by
  stats_by_profile t p = map (λ s. (s, count_by t (by_profile_state p s))) all_states

  -- UsedVMIDs
  unfoldable pub used_vmids : Table → ℕ → ℕ → List ℕ
  unfolding list
  used_vmids t min_id max_id =
      map (λ v. v.vmid) (filter (λ v. leb min_id v.vmid && leb v.vmid max_id) (list t))
