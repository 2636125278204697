-- ===== src/Nodecap.antt =====
-- internal/nodecap/nodecap.go: the ledger of the allocated capacity of each node. Byte counts are
-- 64-bit and wrap; vCPU counts are small and do not. The two settings that are floating-point numbers
-- enter as the functions that the code computes with them, `reserve_share` and `vcpu_limit`.
pub mod Fetch
pub mod Owned
pub mod Ledger
pub mod Cores
pub mod Admission
pub mod Spending
pub mod Sweep
mod Examples
use actions_runner_scaleset.Prelude.{
  ℕ, ◌+◌, ◌-◌, ◌%◌, ◌^◌, ◌==◌, Bool, true, false, not, ◌&&◌, Option, none, some, List, [], ◌∷◌,
  String, str_eq, ltb, leb, filter, is_some, if◌then◌else◌,
}
use actions_runner_scaleset.Prelude.Int.{ℤ, pos, negsuc, ◌+ℤ◌, ◌-ℤ◌, pos_part, neg_part, ltb_ℤ}
use actions_runner_scaleset.Prelude.Dict.{lookup}
use actions_runner_scaleset.Prelude.Runes.{Runes}
use actions_runner_scaleset.Prelude.Words.{wrap64}

pub record Shape : Type 0 where
  pub memory_bytes : ℕ
  pub vcpus : ℕ

pub record NodeState : Type 0 where
  pub total_bytes : ℕ
  pub reserve_bytes : ℕ
  pub committed_bytes : ℕ
  pub available_bytes : ℕ
  pub cpu_gated : Bool
  pub limit_vcpu : ℕ
  pub committed_vcpu : ℕ
  pub available_vcpu : ℕ

pub record VmidRange : Type 0 where
  pub min : ℕ
  pub max : ℕ

-- `reserve_share total` is `uint64(float64(total) * ReserveFraction)`, `cpu_gated` is
-- `CPUOvercommit > 0`, and `vcpu_limit cores` is vcpuLimit.
pub record Options : Type 0 where
  pub nodes : List String
  pub reserve_bytes : ℕ
  pub reserve_share : ℕ → ℕ
  pub cpu_gated : Bool
  pub vcpu_limit : ℕ → ℕ
  pub reservation_ttl : ℕ
  pub owned_vmids : List VmidRange
  pub owner_scale_sets : List Runes

-- nodeTotals
pub record Totals : Type 0 where
  pub mem_bytes : ℕ
  pub vcpus : ℕ
  pub guest_mem : ℕ
  pub guest_vcpu : ℕ

pub record Snapshot : Type 0 where
  pub nodes : List (String × Totals)
  pub guest_mem : List (ℕ × ℕ)
  pub guest_vcpu : List (ℕ × ℕ)

-- A reservation of the ledger. `vmid` is 0 until Bind.
pub record Claim : Type 0 where
  pub id : ℕ
  pub node : String
  pub shape : Shape
  pub vmid : ℕ
  pub freeing : List ℕ
  pub expires : ℕ

pub record Accountant : Type 0 where
  pub opts : Options
  pub last_fresh : Option Snapshot
  pub res : List Claim
  pub next_res : ℕ

-- A Go map's value, or zero.
abbrev pub value_of : Option ℕ → ℕ
value_of none = 0
value_of (some n) = n

abbrev pub no_totals : Totals
no_totals = record { mem_bytes = 0; vcpus = 0; guest_mem = 0; guest_vcpu = 0 }

abbrev pub totals_or_none : Option Totals → Totals
totals_or_none none = no_totals
totals_or_none (some t) = t

unfoldable pub totals_of : Snapshot → String → Totals
unfolding lookup
totals_of snap node = totals_or_none (lookup str_eq node snap.nodes)

unfoldable pub mem_of : Snapshot → ℕ → ℕ
unfolding lookup
mem_of snap vmid = value_of (lookup ◌==◌ vmid snap.guest_mem)

unfoldable pub vcpu_of : Snapshot → ℕ → ℕ
unfolding lookup
vcpu_of snap vmid = value_of (lookup ◌==◌ vmid snap.guest_vcpu)

unfoldable pub saturating_sub : ℕ → ℕ → ℕ
saturating_sub a b = if ltb a b then 0 else a - b

unfoldable pub add_clamped : ℕ → ℤ → ℕ
unfolding saturating_sub
add_clamped base (pos d) = (base + d) % 2 ^ 64
add_clamped base (negsuc d) = saturating_sub base (d + 1)

-- The loop over the reservations in stateLocked: the bytes.
unfoldable pub observed_mem : Snapshot → Claim → ℕ
observed_mem snap r = if r.vmid == 0 then 0 else mem_of snap r.vmid

unfoldable pub freed_delta : Snapshot → ℤ → List ℕ → ℤ
freed_delta snap delta [] = delta
freed_delta snap delta (v ∷ vs) =
    freed_delta snap (wrap64 (delta -ℤ wrap64 (pos (mem_of snap v)))) vs

unfoldable pub claim_delta : Snapshot → ℤ → Claim → ℤ
unfolding observed_mem freed_delta
claim_delta snap delta r =
    freed_delta snap
      (if ltb (observed_mem snap r) r.shape.memory_bytes
        then wrap64 (delta +ℤ wrap64 (pos (r.shape.memory_bytes - observed_mem snap r)))
        else delta)
      r.freeing

unfoldable pub mem_delta : Snapshot → String → ℤ → List Claim → ℤ
unfolding claim_delta
mem_delta snap node delta [] = delta
mem_delta snap node delta (r ∷ rs) =
    mem_delta snap node (if str_eq r.node node then claim_delta snap delta r else delta) rs

-- And the vCPUs.
unfoldable pub observed_vcpu : Snapshot → Claim → ℕ
observed_vcpu snap r = if r.vmid == 0 then 0 else vcpu_of snap r.vmid

unfoldable pub freed_vcpu_delta : Snapshot → ℤ → List ℕ → ℤ
freed_vcpu_delta snap delta [] = delta
freed_vcpu_delta snap delta (v ∷ vs) = freed_vcpu_delta snap (delta -ℤ pos (vcpu_of snap v)) vs

unfoldable pub claim_vcpu_delta : Snapshot → ℤ → Claim → ℤ
unfolding observed_vcpu freed_vcpu_delta
claim_vcpu_delta snap delta r =
    freed_vcpu_delta snap
      (if ltb (observed_vcpu snap r) r.shape.vcpus
        then delta +ℤ pos (r.shape.vcpus - observed_vcpu snap r)
        else delta)
      r.freeing

unfoldable pub vcpu_delta : Snapshot → String → ℤ → List Claim → ℤ
unfolding claim_vcpu_delta
vcpu_delta snap node delta [] = delta
vcpu_delta snap node delta (r ∷ rs) =
    vcpu_delta snap node (if str_eq r.node node then claim_vcpu_delta snap delta r else delta) rs

-- reserveFor
unfoldable pub reserve_for : Options → ℕ → ℕ
reserve_for opts total =
    let frac = opts.reserve_share total in
    if ltb opts.reserve_bytes frac then frac else opts.reserve_bytes

-- stateLocked, from what the loop adds up to
unfoldable pub state_from : Options → Totals → ℕ → ℕ → NodeState
unfolding reserve_for saturating_sub
state_from opts totals committed committed_vcpu =
    let reserve = reserve_for opts totals.mem_bytes in
    let usable = saturating_sub totals.mem_bytes reserve in
    let limit = if opts.cpu_gated then opts.vcpu_limit totals.vcpus else 0 in
    record {
      total_bytes = totals.mem_bytes;
      reserve_bytes = reserve;
      committed_bytes = committed;
      available_bytes = if ltb committed usable then usable - committed else 0;
      cpu_gated = opts.cpu_gated;
      limit_vcpu = limit;
      committed_vcpu = committed_vcpu;
      available_vcpu = if ltb committed_vcpu limit then limit - committed_vcpu else 0;
    }

-- stateLocked
unfoldable pub state_locked : Accountant → Snapshot → String → NodeState
unfolding state_from totals_of mem_delta vcpu_delta add_clamped
state_locked a snap node =
    let totals = totals_of snap node in
    state_from a.opts totals (add_clamped totals.guest_mem (mem_delta snap node (pos 0) a.res))
      (pos_part (vcpu_delta snap node (pos 0) a.res +ℤ pos totals.guest_vcpu))

-- The credits of fitsLocked.
unfoldable pub mem_credit : Snapshot → ℕ → List ℕ → ℕ
mem_credit snap credit [] = credit
mem_credit snap credit (v ∷ vs) = mem_credit snap ((credit + mem_of snap v) % 2 ^ 64) vs

unfoldable pub vcpu_credit : Snapshot → List ℕ → ℕ
vcpu_credit snap [] = 0
vcpu_credit snap (v ∷ vs) = vcpu_of snap v + vcpu_credit snap vs

-- fitsLocked
unfoldable pub fits_locked : Accountant → Snapshot → String → Shape → List ℕ → Bool
unfolding lookup state_locked mem_credit vcpu_credit
fits_locked a snap node shape extra_freeing =
    let st = state_locked a snap node in
    let avail = (st.available_bytes + mem_credit snap 0 extra_freeing) % 2 ^ 64 in
    if is_some (lookup str_eq node snap.nodes)
    then if ltb avail shape.memory_bytes
      then false
      else if a.opts.cpu_gated
      then not (
          ltb (a.opts.vcpu_limit (totals_of snap node).vcpus + vcpu_credit snap extra_freeing)
            (st.committed_vcpu + shape.vcpus))
      else true
    else false

-- sweepLocked
abbrev pub still_there : Snapshot → ℕ → Bool
still_there snap v = is_some (lookup ◌==◌ v snap.guest_mem)

unfoldable pub retires : Snapshot → ℕ → Claim → Bool
retires snap now r =
    if ltb r.expires now
    then true
    else if r.vmid == 0
    then false
    else leb r.shape.memory_bytes (mem_of snap r.vmid)

unfoldable pub sweep_claims : Snapshot → ℕ → List Claim → List Claim
unfolding retires filter lookup
sweep_claims snap now [] = []
sweep_claims snap now (r ∷ rs) =
    let rest = sweep_claims snap now rs in
    if retires snap now r
    then rest
    else record r { freeing = filter (still_there snap) r.freeing } ∷ rest

unfoldable pub sweep_locked : Accountant → Snapshot → ℕ → Accountant
unfolding sweep_claims
sweep_locked a snap now = record a { res = sweep_claims snap now a.res }

-- ReserveFreeing with the snapshot at hand, and the id of the reservation
unfoldable pub reserve_locked :
    Accountant → Snapshot → ℕ → String → Shape → List ℕ → Accountant × Option ℕ
unfolding sweep_locked fits_locked
reserve_locked a snap now node shape freeing =
    let swept = sweep_locked a snap now in
    let id = swept.next_res + 1 in
    let claim : Claim = record {
      id = id;
      node = node;
      shape = shape;
      vmid = 0;
      freeing = freeing;
      expires = now + swept.opts.reservation_ttl;
    } in
    if fits_locked swept snap node shape freeing
    then (record swept { res = claim ∷ swept.res; next_res = id }, some id)
    else (swept, none)

-- Bind and Release, by the id of the reservation
unfoldable pub bind_claims : ℕ → ℕ → List Claim → List Claim
bind_claims id vmid [] = []
bind_claims id vmid (r ∷ rs) =
    (if r.id == id then record r { vmid = vmid } else r) ∷ bind_claims id vmid rs

unfoldable pub bind : Accountant → ℕ → ℕ → Accountant
unfolding bind_claims
bind a id vmid = record a { res = bind_claims id vmid a.res }

unfoldable pub release : Accountant → ℕ → Accountant
unfolding filter
release a id = record a { res = filter (λ r. not (r.id == id)) a.res }

-- resources: the cached snapshot, else a fetched one, else the last good one. `cached` is the answer of
-- the cache and `fetched` that of the fetch.
unfoldable pub resources :
    Accountant → Option Snapshot → Option Snapshot → Accountant × Option Snapshot
resources a (some s) fetched = (a, some s)
resources a none (some s) = (record a { last_fresh = some s }, some s)
resources a none none = (a, a.last_fresh)

pub data Answer : Type 0 where
  no_snapshot : Answer
  refused : Answer
  granted : ℕ → Answer

abbrev pub answer_of : Option ℕ → Answer
answer_of none = refused
answer_of (some id) = granted id

-- ReserveFreeing; Reserve passes no VMIDs.
abbrev pub reserve_with :
    Accountant → Option Snapshot → ℕ → String → Shape → List ℕ → Accountant × Answer
unfolding reserve_locked
reserve_with a none now node shape freeing = (a, no_snapshot)
reserve_with a (some snap) now node shape freeing =
    let (u, id) = reserve_locked a snap now node shape freeing in (u, answer_of id)

unfoldable pub reserve_freeing :
    Accountant
    → Option Snapshot
    → Option Snapshot
    → ℕ
    → String
    → Shape
    → List ℕ
    → Accountant × Answer
unfolding resources
reserve_freeing a cached fetched now node shape freeing =
    let (b, snap) = resources a cached fetched in reserve_with b snap now node shape freeing

-- Fits with the snapshot at hand
unfoldable pub fits_each : Accountant → Snapshot → Shape → List String → List (String × Bool)
unfolding fits_locked
fits_each a snap shape [] = []
fits_each a snap shape (node ∷ rest) =
    (node, fits_locked a snap node shape []) ∷ fits_each a snap shape rest

unfoldable pub fits :
    Accountant → Snapshot → ℕ → Shape → List String → Accountant × List (String × Bool)
unfolding sweep_locked fits_each
fits a snap now shape candidates =
    let swept = sweep_locked a snap now in (swept, fits_each swept snap shape candidates)

-- Snapshot with the snapshot at hand
unfoldable pub node_states :
    Accountant → Snapshot → List (String × Totals) → List (String × NodeState)
unfolding state_locked
node_states a snap [] = []
node_states a snap ((node, totals) ∷ rest) =
    (node, state_locked a snap node) ∷ node_states a snap rest

unfoldable pub snapshot_states : Accountant → Snapshot → ℕ → Accountant × List (String × NodeState)
unfolding sweep_locked node_states
snapshot_states a snap now =
    let swept = sweep_locked a snap now in (swept, node_states swept snap snap.nodes)
