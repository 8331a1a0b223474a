-- ===== src/Kernel/Tests.antt =====
-- The theorems on backend/app/kernel, applied to small registries.
use redops.Base.{
  String, Bool, List, [], ◌∷◌, ◌≡◌, refl, ok, some, not, str_eq, return, raised, Call,
}
use redops.Kernel.Registry.{
  Services, RegistryError, resolve_start_order, start_all, circular_dependency, start_each,
}
use redops.Kernel.Registry.Order.{Decides}
use redops.Kernel.Registry.Health.{
  Request, to_register, to_unregister, serve_all, serve_all-Decides,
}

abbrev requests : List Request
requests =
    to_register "api" ("cache" ∷ "database" ∷ [])
    ∷ to_register "cache" ("database" ∷ "metrics" ∷ [])
    ∷ to_register "database" []
    ∷ to_register "old" ("api" ∷ [])
    ∷ to_unregister "old"
    ∷ []

order_of_requests :
    resolve_start_order (serve_all requests []) ≡ some (ok ("database" ∷ "cache" ∷ "api" ∷ []))
unfolding resolve_start_order serve_all
order_of_requests = refl

order_of_cycle :
    resolve_start_order
      (serve_all (to_register "a" ("b" ∷ []) ∷ to_register "b" ("a" ∷ []) ∷ []) [])
    ≡ some (raised circular_dependency)
unfolding resolve_start_order serve_all
order_of_cycle = refl

serve_all-Decides_example : Decides (serve_all requests [])
serve_all-Decides_example = serve_all-Decides requests

abbrev services : Services
services = serve_all requests []

-- The start of "cache" raises, and "api" is started all the same.
abbrev starts : String → Bool
starts name = not (str_eq name "cache")

abbrev started : Call Services RegistryError (Unit {0})
started = return (start_each starts ("database" ∷ "cache" ∷ "api" ∷ []) services) tt

start_all-services : start_all starts services ≡ some started
unfolding start_all serve_all
start_all-services = refl
