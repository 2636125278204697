-- ===== src/Pool/Eviction.antt =====
-- The eviction of idle VMs for a queued job in internal/pool/capacity.go: fitsNode, planEviction and
-- startEviction. Bytes are 64-bit unsigned; the vCPU counts are of a few digits and do not wrap.
-- `others i t` and `clock i` are as in Pool.Sweeps.
pub mod Closing
pub mod Ordered
pub mod Plans
pub mod Commits
mod Examples
use actions_runner_scaleset.Prelude.{
  ℕ, ◌+◌, ◌-◌, ◌%◌, ◌^◌, Bool, true, false, not, ◌&&◌, ◌||◌, Option, none, some, List, [], ◌∷◌,
  ◌++◌, ltb, leb, map, String, if◌then◌else◌,
}
use actions_runner_scaleset.Nodecap.{Shape, NodeState}
use actions_runner_scaleset.Store.{Vm, State, warm, hot, draining, Result, ok, err}
use actions_runner_scaleset.Store.Table.{Memdb}
use actions_runner_scaleset.Store.Write.{update_state}
use actions_runner_scaleset.Pool.Handlers.{Effect, destroy_async, set_since}
use actions_runner_scaleset.Pool.Sweeps.{Others}

pub record EvictionCandidate : Type 0 where
  pub row : Vm
  pub mem_bytes : ℕ
  pub vcpus : ℕ
  pub preferred : Bool

pub record EvictionPlan : Type 0 where
  pub victims : List EvictionCandidate
  pub mem_gap : ℕ
  pub vcpu_gap : ℕ
  pub freed_mem : ℕ
  pub freed_vcpu : ℕ

-- fitsNode
unfoldable pub fits_node : NodeState → Shape → Bool
fits_node st shape =
    if ltb st.available_bytes shape.memory_bytes
    then false
    else (not st.cpu_gated) || leb shape.vcpus st.available_vcpu

-- The order of the candidates: warm before hot, then the older one.
unfoldable pub goes_first : EvictionCandidate → EvictionCandidate → Bool
goes_first a b =
    if (a.preferred && not b.preferred) || (not a.preferred && b.preferred)
    then a.preferred
    else ltb a.row.created_at b.row.created_at

-- `sort.SliceStable`
unfoldable pub insert_candidate :
    EvictionCandidate → List EvictionCandidate → List EvictionCandidate
unfolding goes_first
insert_candidate c [] = c ∷ []
insert_candidate c (d ∷ ds) =
    let rest = insert_candidate c ds in if goes_first d c then d ∷ rest else c ∷ d ∷ ds

unfoldable pub order_candidates : List EvictionCandidate → List EvictionCandidate
unfolding insert_candidate
order_candidates [] = []
order_candidates (c ∷ cs) = insert_candidate c (order_candidates cs)

-- The loop of planEviction, with the victims taken so far and what they free.
unfoldable pub close_gap :
    ℕ → ℕ → List EvictionCandidate → ℕ → ℕ → List EvictionCandidate → EvictionPlan
close_gap mem_gap vcpu_gap victims freed_mem freed_vcpu [] = record {
  victims = [];
  mem_gap = mem_gap;
  vcpu_gap = vcpu_gap;
  freed_mem = 0;
  freed_vcpu = 0;
}
close_gap mem_gap vcpu_gap victims freed_mem freed_vcpu (c ∷ cs) =
    let mem = (freed_mem + c.mem_bytes) % 2 ^ 64 in
    let vcpu = freed_vcpu + c.vcpus in
    let rest = close_gap mem_gap vcpu_gap (victims ++ c ∷ []) mem vcpu cs in
    if leb mem_gap mem && leb vcpu_gap vcpu
    then record {
      victims = victims ++ c ∷ [];
      mem_gap = mem_gap;
      vcpu_gap = vcpu_gap;
      freed_mem = mem;
      freed_vcpu = vcpu;
    }
    else rest

abbrev pub mem_gap_of : Shape → NodeState → ℕ
mem_gap_of shape st =
    if ltb st.available_bytes shape.memory_bytes then shape.memory_bytes - st.available_bytes else 0

abbrev pub vcpu_gap_of : Shape → NodeState → ℕ
vcpu_gap_of shape st =
    if st.cpu_gated && ltb st.available_vcpu shape.vcpus then shape.vcpus - st.available_vcpu else 0

-- planEviction
unfoldable pub plan_eviction : List EvictionCandidate → Shape → NodeState → EvictionPlan
unfolding fits_node order_candidates close_gap
plan_eviction candidates shape st =
    if fits_node st shape
    then record { victims = []; mem_gap = 0; vcpu_gap = 0; freed_mem = 0; freed_vcpu = 0 }
    else close_gap (mem_gap_of shape st) (vcpu_gap_of shape st) [] 0 0 (order_candidates candidates)

module _ (db : Memdb) (others : Others db) (clock : ℕ → ℕ) where
  open db use {Table}

  abbrev pub idle_state : EvictionCandidate → State
  idle_state v = if v.preferred then warm else hot

  -- The victim is committed if the write was applied; otherwise the loop ends.
  abbrev pub committed_by :
      Result Bool
      → EvictionCandidate
      → Table
      → Table × List EvictionCandidate
      → Table × List EvictionCandidate
  committed_by (ok true) v t (w, rest) = (w, v ∷ rest)
  committed_by (ok false) v t rest = (t, [])
  committed_by (err e) v t rest = (t, [])

  -- The first loop of startEviction.
  unfoldable pub commit_victims :
      ℕ → List EvictionCandidate → Table → Table × List EvictionCandidate
  commit_victims i [] t = (t, [])
  commit_victims i (v ∷ vs) t =
      let (u, r) =
        update_state db (others i t).0 v.row.vmid (idle_state v) draining (set_since (clock i))
          (clock i) in
      committed_by r v u (commit_victims (i + 1) vs u)

  -- startEviction after its first loop: nothing if no victim was committed.
  unfoldable pub finish_eviction :
      {Reservation : Type 0}
      → (List ℕ → Option Reservation)
      → List EvictionCandidate
      → Bool × Option Reservation × List Effect
  finish_eviction reserve_freeing [] = (false, none, [])
  finish_eviction reserve_freeing (v ∷ vs) = (
    true,
    reserve_freeing (map (λ c. c.row.vmid) (v ∷ vs)),
    map (λ c. destroy_async c.row.vmid c.row.node c.row.profile) (v ∷ vs),
  )

  -- startEviction: the table, whether it started one, the reservation that it parks, and the destroys.
  -- `reserve_freeing` is the answer of the accountant for the committed VMs.
  unfoldable pub start_eviction :
      {Reservation : Type 0}
      → (List ℕ → Option Reservation)
      → EvictionPlan
      → Table
      → Table × Bool × Option Reservation × List Effect
  unfolding commit_victims finish_eviction
  start_eviction reserve_freeing plan t =
      let (u, committed) = commit_victims 0 plan.victims t in
      let (did, parked, effects) = finish_eviction reserve_freeing committed in
      (u, did, parked, effects)
