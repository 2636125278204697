-- ===== src/Pool/Parked/Examples.antt =====
-- An instance of the theorem on parked reservations in internal/pool/capacity.go.
use actions_runner_scaleset.Prelude.{
  ℕ, ◌+◌, ◌≡◌, ◌<◌, ◌⊎◌, Bool, true, List, [], ◌∷◌, String, str_eq, count, All,
}
use actions_runner_scaleset.Pool.Parked.{Parked, claim_parked}
use actions_runner_scaleset.Pool.Parked.Claims.{taken, Refused, Fair, claim_parked-Fair}

abbrev parked : String → ℕ → Parked ℕ
parked node expires = record { node = node; res = expires; expires = expires }

-- One expired, one on a node that is out, one on a node without an answer, and a good one.
abbrev evicted : List (Parked ℕ)
evicted = parked "pve3" 5 ∷ parked "pve2" 20 ∷ parked "pve1" 30 ∷ parked "pve3" 40 ∷ []

abbrev is_eligible : String → Bool
is_eligible node = str_eq node "pve3"

abbrev is_settled : String → Bool
is_settled node = str_eq node "pve2"

abbrev any_kind : Parked ℕ → Bool
any_kind p = true

claim_parked-Fair_example :
    let s = claim_parked ℕ is_eligible is_settled 10 evicted (parked "pve1" 100 ∷ []) in
    (taken any_kind s.chosen + count any_kind s.keep + count any_kind s.released
      ≡ count any_kind evicted + count any_kind (parked "pve1" 100 ∷ []))
    × All (λ p. (p.expires < 10) ⊎ Refused is_eligible is_settled p) s.released
    × Fair is_eligible is_settled 10 evicted s.chosen
claim_parked-Fair_example =
    claim_parked-Fair is_eligible is_settled 10 evicted (parked "pve1" 100 ∷ []) any_kind
