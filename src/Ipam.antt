-- ===== src/Ipam.antt =====
-- internal/ipam/ipam.go: the static allocator. Each method holds the mutex throughout.
pub mod Leases
mod Examples
use actions_runner_scaleset.Prelude.{
  ℕ, ◌==◌, ◌≡◌, Bool, true, false, Option, none, some, List, [], ◌∷◌, String, str_eq, contains,
  is_some, if◌then◌else◌,
}
use actions_runner_scaleset.Prelude.Dict.{lookup, erase, insert}

-- The map `in` from VMIDs to addresses, and its reverse index.
pub record Static : Type 0 where
  pub pool : List String
  pub leases : List (ℕ × String)
  pub used : List (String × ℕ)

pub data PoolError : Type 0 where
  empty_pool duplicate_ip : PoolError

-- The loop of NewStatic over the addresses, with those seen so far.
unfoldable pub has_duplicate : List String → List String → Bool
has_duplicate seen [] = false
has_duplicate seen (ip ∷ ips) =
    let rest = has_duplicate (ip ∷ seen) ips in if contains ip seen then true else rest

pub data Created : Type 0 where
  created : Static → Created
  rejected : PoolError → Created

-- NewStatic
unfoldable pub new_static : List String → Created
unfolding has_duplicate
new_static [] = rejected empty_pool
new_static (ip ∷ ips) =
    if has_duplicate [] (ip ∷ ips)
    then rejected duplicate_ip
    else created (record { pool = ip ∷ ips; leases = []; used = [] })

-- The first address of the pool that is not taken.
unfoldable pub first_free : List (String × ℕ) → List String → Option String
first_free used [] = none
first_free used (ip ∷ ips) =
    let rest = first_free used ips in if is_some (lookup str_eq ip used) then rest else some ip

-- Static.Allocate: none is an exhausted pool
unfoldable pub allocate : Static → ℕ → Static × Option String
unfolding first_free
allocate s vmid = elim (lookup (λ a b. a == b) vmid s.leases) [
  | some ip ↦ (s, some ip)
  | none ↦ elim (first_free s.used s.pool) [
    | none ↦ (s, none)
    | some ip ↦ (
      record s {
        leases = insert (λ a b. a == b) vmid ip s.leases;
        used = insert str_eq ip vmid s.used;
      },
      some ip,
    )
  ]
]

-- Static.Release
unfoldable pub release : Static → ℕ → Static
release s vmid = elim (lookup (λ a b. a == b) vmid s.leases) [
  | none ↦ s
  | some ip ↦ record s {
    used = erase str_eq ip s.used;
    leases = erase (λ a b. a == b) vmid s.leases;
  }
]
