-- ===== src/ComposeFile/Samples.antt =====
-- A compose file of two services, and the theorem at it.
use previewctl.Base.{[], ◌∷◌, ◌++◌, ◌≡◌, refl, arith, Text, bytes, ◌==◌, eq_iff, Map, lookup}
use previewctl.Config.{ProjectConfig, ServiceConfig}
use previewctl.ComposeFile.{generate_compose_file}
use previewctl.ComposeFile.Order.{HasSame, generate_compose_file-same}
use previewctl.Registry.Samples.{composed, manifest}
use previewctl.Validate.Samples.{web}

abbrev started : ServiceConfig
started = record web { start = bytes "run" }

abbrev two : ProjectConfig
two = record composed { services = (bytes "web", started) ∷ (bytes "api", started) ∷ [] }

abbrev swapped : Map ServiceConfig
swapped = (bytes "api", started) ∷ (bytes "web", started) ∷ []

abbrev join_path : Text → Text → Text
join_path a b = a ++ (bytes "/" ++ b)

program : Unit {0}
unfolding lookup bytes ◌==◌
program = tt

swapped-HasSame : HasSame two.services swapped
unfolding program
swapped-HasSame name = ground (arith, eq_iff (bytes "web") name, eq_iff (bytes "api") name)

generate_compose_file-same_example :
    generate_compose_file join_path two manifest
    ≡ generate_compose_file join_path (record two { services = swapped }) manifest
generate_compose_file-same_example =
    generate_compose_file-same join_path two swapped swapped-HasSame manifest
      (unfold lookup bytes ◌==◌ in (refl, (refl, tt)))
      (unfold lookup bytes ◌==◌ in (refl, (refl, tt)))
