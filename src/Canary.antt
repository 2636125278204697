-- ===== src/Canary.antt =====
-- internal/canary/canary.go: the choice between the stable and the candidate template, and the
-- automatic revert. Each method holds the profile's mutex, so calls are a sequence. The comparison of
-- float64(failures) / float64(clones) with the configured rate is a field of the state.
pub mod Revert
mod Examples
use Prim.Native.Nat.{bit_xor}
use actions_runner_scaleset.Prelude.{
  ℕ, zero, suc, ◌+◌, ◌-◌, ◌*◌, ◌/◌, ◌%◌, ◌^◌, ◌==◌, Bool, true, false, not, ◌&&◌, ◌||◌, Option,
  none, some, List, [], ◌∷◌, String, ltb, if◌then◌else◌,
}

pub data Template : Type 0 where
  stable candidate : Template

-- profileState
pub record ProfileState : Type 0 where
  pub stable_vmid : ℕ
  pub candidate_vmid : ℕ
  pub percent : ℕ
  pub original_percent : ℕ
  -- maxFailureRate > 0
  pub rate_set : Bool
  -- float64(failures) / float64(clones) > maxFailureRate
  pub rate_exceeded : ℕ → ℕ → Bool
  pub canary_clones : ℕ
  pub canary_failures : ℕ
  pub reverted : Bool

abbrev fnv_offset : ℕ
fnv_offset = 14695981039346656037

abbrev fnv_prime : ℕ
fnv_prime = 1099511628211

-- One byte of FNV-1a on 64 bits.
unfoldable pub fnv_byte : ℕ → ℕ → ℕ
fnv_byte h byte = bit_xor h byte * fnv_prime % 2 ^ 64

-- The hash of the `n` bytes of a number, the most significant first.
unfoldable pub fnv_bytes : ℕ → ℕ → ℕ
unfolding fnv_byte
fnv_bytes zero k = fnv_offset
fnv_bytes (suc n) k = fnv_byte (fnv_bytes n (k / 256)) (k % 256)

-- hashMod100
unfoldable pub hash_mod100 : ℕ → ℕ
unfolding fnv_bytes
hash_mod100 vmid = fnv_bytes 8 vmid % 100

-- Controller.Pick, for a profile that is registered
unfoldable pub pick : ProfileState → ℕ → ℕ × Template
unfolding hash_mod100
pick ps vmid =
    if ps.candidate_vmid == 0 || ps.percent == 0
    then (ps.stable_vmid, stable)
    else if ltb (hash_mod100 vmid) ps.percent
    then (ps.candidate_vmid, candidate)
    else (ps.stable_vmid, stable)

-- Controller.RecordClone
unfoldable pub record_clone : ProfileState → Template → ProfileState
record_clone ps stable = ps
record_clone ps candidate = record ps { canary_clones = ps.canary_clones + 1 }

-- Controller.RecordFailure, with minFailureSamples; true reports an automatic revert
unfoldable pub record_failure : ℕ → ProfileState → Template → ProfileState × Bool
record_failure min_samples ps stable = (ps, false)
record_failure min_samples ps candidate =
    let counted = record ps { canary_failures = ps.canary_failures + 1 } in
    if not ps.rate_set || ltb ps.canary_clones min_samples
    then (counted, false)
    else if ps.rate_exceeded counted.canary_failures ps.canary_clones && not ps.reverted
    then (record counted { reverted = true; percent = 0 }, true)
    else (counted, false)

-- Controller.Promote; none is ErrNoCandidate
unfoldable pub promote : ProfileState → Option ProfileState
promote ps =
    if ps.candidate_vmid == 0
    then none
    else some (record ps {
      stable_vmid = ps.candidate_vmid;
      candidate_vmid = 0;
      percent = 0;
      original_percent = 0;
      canary_clones = 0;
      canary_failures = 0;
      reverted = false;
    })
