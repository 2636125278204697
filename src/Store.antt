-- ===== src/Store.antt =====
-- The rows of internal/store: states, pool budgets, the VM record, and the errors of its methods.
-- Times are natural numbers and 0 is Go's zero time; VMIDs, job ids and runner ids are natural
-- numbers and 0 is the source's "unset".
pub mod Table
pub mod Read
pub mod Write
pub mod Acquire
pub mod Lookup
pub mod Validity
pub mod Transitions
pub mod Guards
pub mod Capacity
pub mod Rows
pub mod Bursts
pub mod Steps
pub mod Model
pub mod Claims
pub mod Sample
mod Examples
use actions_runner_scaleset.Prelude.{
  ℕ, ◌==◌, ◌≡◌, ◌↔◌, refl, String, Bool, true, List, [], ◌∷◌, arith,
}

pub data State : Type 0 where
  provisioning warm booting hot assigned running recycling draining destroying poison : State

pub data PoolKind : Type 0 where
  hot_kind warm_kind : PoolKind

pub record Vm : Type 0 where
  pub vmid : ℕ
  pub node : String
  pub name : String
  pub profile : String
  pub org : String
  pub repo : String
  pub priority_class : String
  pub template : String
  pub pool_kind : PoolKind
  pub state : State
  pub job_id : ℕ
  pub runner_id : ℕ
  pub boot_attempts : ℕ
  pub recycle_count : ℕ
  pub has_recycle_snapshot : Bool
  pub created_at : ℕ
  pub updated_at : ℕ
  pub state_since : ℕ

abbrev pub all_states : List State
all_states =
    provisioning ∷ warm ∷ booting ∷ hot ∷ assigned ∷ running ∷ recycling ∷ draining ∷ destroying
    ∷ poison ∷ []

abbrev state_rank : State → ℕ
state_rank provisioning = 0
state_rank warm = 1
state_rank booting = 2
state_rank hot = 3
state_rank assigned = 4
state_rank running = 5
state_rank recycling = 6
state_rank draining = 7
state_rank destroying = 8
state_rank poison = 9

-- `==` on states
unfoldable pub state_eq : State → State → Bool
state_eq a b = state_rank a == state_rank b

abbrev kind_rank : PoolKind → ℕ
kind_rank hot_kind = 0
kind_rank warm_kind = 1

unfoldable pub kind_eq : PoolKind → PoolKind → Bool
kind_eq a b = kind_rank a == kind_rank b

pub state_eq_iff : (a b : State) → (state_eq a b ≡ true) ↔ (a ≡ b)
unfolding state_eq
state_eq_iff a b = ground arith

pub state_eq_self : (a : State) → state_eq a a ≡ true
unfolding state_eq
state_eq_self a = ground arith

-- The sentinel and formatted errors that the methods return.
pub data Error : Type 0 where
  not_found at_capacity none_available immutable_field_changed : Error
  vmid_not_positive already_exists write_failed : Error

pub data Result {ℓ} (A : Type ℓ) : Type ℓ where
  ok : A → Result A
  err : Error → Result A
