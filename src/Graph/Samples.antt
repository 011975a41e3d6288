-- ===== src/Graph/Samples.antt =====
-- `TopologicalSort` on small graphs, and the theorems at them.
use previewctl.Base.{
  Text, Map, List, [], ◌∷◌, bytes, none, some, ok, err, ◌≡◌, refl, ◌==◌, HasUniqueKeys, ◌⊎◌, ◌==◌,
  text_ltb, lookup, insert,
}
use previewctl.Config.{ServiceConfig}
use previewctl.Graph.{topological_sort}
use previewctl.Graph.Order.{
  IsTopological, IsAcyclic, topological_sort-IsTopological, topological_sort_decides,
}

abbrev service : List Text → ServiceConfig
service deps = record {
  path = bytes "apps";
  port = 0;
  command = [];
  depends_on = deps;
  env = none;
  env_file = [];
  build = [];
  start = [];
  proxy = [];
}

-- `web` needs `api` and `redis` (which is no service), `api` needs `auth`.
abbrev diamond : Map ServiceConfig
diamond =
    (bytes "web", service (bytes "api" ∷ bytes "redis" ∷ bytes "auth" ∷ []))
    ∷ (bytes "api", service (bytes "auth" ∷ []))
    ∷ (bytes "auth", service [])
    ∷ []

abbrev diamond_order : List Text
diamond_order = bytes "auth" ∷ bytes "api" ∷ bytes "web" ∷ []

program : Unit {0}
unfolding topological_sort bytes ◌==◌ text_ltb lookup insert
program = tt

topological_sort-diamond : topological_sort diamond ≡ some (ok diamond_order)
unfolding program
topological_sort-diamond = refl

diamond_unique : HasUniqueKeys diamond
unfolding program
diamond_unique = (refl, (refl, (refl, tt)))

-- A cycle of two services.
abbrev circle : Map ServiceConfig
circle = (bytes "a", service (bytes "b" ∷ [])) ∷ (bytes "b", service (bytes "a" ∷ [])) ∷ []

topological_sort-circle :
    topological_sort circle ≡ some (err (bytes "dependency cycle detected among services"))
unfolding program
topological_sort-circle = refl

topological_sort-IsTopological_example : IsTopological diamond diamond_order
topological_sort-IsTopological_example =
    topological_sort-IsTopological diamond diamond_order diamond_unique topological_sort-diamond

topological_sort_decides_example :
    (IsAcyclic diamond × ((order : List Text) × (topological_sort diamond ≡ some (ok order))))
    ⊎ ((¬ IsAcyclic diamond)
        × (topological_sort diamond
            ≡ some (err (bytes "dependency cycle detected among services"))))
topological_sort_decides_example = topological_sort_decides diamond diamond_unique
