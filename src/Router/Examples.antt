-- ===== src/Router/Examples.antt =====
-- Instances of the theorems on internal/router/router.go.
use actions_runner_scaleset.Prelude.{◌≡◌, refl, some, [], ◌∷◌, contains}
use actions_runner_scaleset.Prelude.Choice.{select, select_from}
use actions_runner_scaleset.Router.{Profile, route, contains_all}

abbrev large : Profile
large = record { name = "large"; labels = "linux" ∷ "gpu" ∷ "ssd" ∷ [] }

abbrev small : Profile
small = record { name = "small"; labels = "linux" ∷ [] }

route_run : route (large ∷ small ∷ []) ("linux" ∷ []) ≡ some "small"
unfolding route select select_from contains_all contains
route_run = refl
