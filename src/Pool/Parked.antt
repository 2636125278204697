-- ===== src/Pool/Parked.antt =====
-- The capacity reservations that an eviction parks for a later clone in internal/pool/capacity.go:
-- drainEvicted, parkAll and claimParked. A reservation is a handle of the accountant's, of any type.
pub mod Claims
mod Examples
use actions_runner_scaleset.Prelude.{
  ℕ, Bool, true, false, Option, none, some, List, [], ◌∷◌, ◌++◌, String, ltb, if◌then◌else◌,
}

module _ (Reservation : Type 0) where
  -- parkedReservation
  pub record Parked : Type 0 where
    pub node : String
    pub res : Reservation
    pub expires : ℕ

  -- What a claim makes of the parked reservations: the one that it takes, those that stay parked, and
  -- those that it releases.
  pub record Sorted : Type 0 where
    pub chosen : Option Parked
    pub keep : List Parked
    pub released : List Parked

  -- drainEvicted: the handles that are not expired, and those that it releases
  unfoldable pub drain_evicted : ℕ → List Parked → List Parked × List Parked
  drain_evicted now [] = ([], [])
  drain_evicted now (p ∷ ps) =
      let (out, released) = drain_evicted now ps in
      if ltb p.expires now then (out, p ∷ released) else (p ∷ out, released)

  module _ (eligible known : String → Bool) where
    -- The loop of claimParked, by the answers of nodeEligible for a node.
    unfoldable pub sort_parked : Option Parked → List Parked → Sorted
    sort_parked chosen [] = record { chosen = chosen; keep = []; released = [] }
    sort_parked (some c) (p ∷ ps) =
        let rest = sort_parked (some c) ps in record rest { keep = p ∷ rest.keep }
    sort_parked none (p ∷ ps) =
        let taken = sort_parked (some p) ps in
        let rest = sort_parked none ps in
        if eligible p.node
        then taken
        else if known p.node
        then record rest { released = p ∷ rest.released }
        else record rest { keep = p ∷ rest.keep }

    -- claimParked at the time `now`: `arrived` are the reservations that other goroutines park before
    -- parkAll. The kept ones are the parked ones afterwards.
    unfoldable pub claim_parked : ℕ → List Parked → List Parked → Sorted
    unfolding drain_evicted sort_parked
    claim_parked now evicted arrived =
        let (parked, expired) = drain_evicted now evicted in
        let s = sort_parked none parked in
        record s { keep = arrived ++ s.keep; released = expired ++ s.released }
