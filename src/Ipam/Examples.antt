-- ===== src/Ipam/Examples.antt =====
-- Runs of the static allocator of internal/ipam/ipam.go, and instances of its theorems.
use actions_runner_scaleset.Prelude.{◌≡◌, refl, List, [], ◌∷◌, String, contains, In}
use actions_runner_scaleset.Prelude.Dict.{lookup, erase, insert}
use actions_runner_scaleset.Ipam.{
  Static, new_static, created, has_duplicate, allocate, release, first_free,
}
use actions_runner_scaleset.Ipam.Leases.{Call, allocates, releases, calls, leases_unique}

abbrev two_ips : List String
two_ips = "10.0.0.1" ∷ "10.0.0.2" ∷ []

abbrev fresh : Static
fresh = record { pool = two_ips; leases = []; used = [] }

fresh-created : new_static two_ips ≡ created fresh
unfolding new_static has_duplicate contains
fresh-created = refl

abbrev history : List Call
history = allocates 101 ∷ allocates 102 ∷ releases 101 ∷ allocates 103 ∷ []

leases_unique_example : In "10.0.0.1" two_ips
unfolding calls allocate release first_free lookup insert erase
leases_unique_example =
    (leases_unique two_ips fresh history 103 103 "10.0.0.1" fresh-created refl refl).1
