-- ===== src/Compose/Samples.antt =====
-- Port mappings and a compose file.
use previewctl.Base.{true, [], ◌∷◌, ◌++◌, ◌≡◌, refl, arith, bytes, ok, err, cut}
use previewctl.Ports.{decimal}
use previewctl.Compose.{
  parse_port_mapping, parse_services, is_name, static_part, is_number, env_parts,
}
use previewctl.Compose.Mappings.{parse_port_mapping-formats}

program : Unit {0}
unfolding parse_port_mapping parse_services cut is_name bytes static_part is_number env_parts
program = tt

parse_services-redis :
    parse_services (
      (
        bytes "redis",
        record { image = bytes "redis:7"; ports = bytes "${REDIS_PORT:-6379}:6379" ∷ [] },
      )
      ∷ [])
    ≡ ok (
        (
          bytes "redis",
          record {
            name = bytes "redis";
            image = bytes "redis:7";
            port = 6379;
            env_var = bytes "REDIS_PORT";
          },
        )
        ∷ [])
unfolding program
parse_services-redis = refl

parse_port_mapping-range :
    parse_port_mapping (bytes "80-90:80") ≡ err (bytes "unsupported port mapping format: 80-90:80")
unfolding program
parse_port_mapping-range = refl

redis_is_name : is_name (bytes "REDIS_PORT") ≡ true
unfolding program
redis_is_name = refl

parse_port_mapping-formats_example :
    (parse_port_mapping (
        b'$'
        ∷ b'{'
        ∷ (bytes "REDIS_PORT" ++ (b':' ∷ b'-' ∷ (decimal 6379 ++ (b'}' ∷ b':' ∷ decimal 80)))))
      ≡ ok (bytes "REDIS_PORT", 6379))
    × (parse_port_mapping (decimal 6379 ++ (b':' ∷ decimal 80)) ≡ ok ([], 6379))
    × (parse_port_mapping (decimal 6379) ≡ ok ([], 6379))
parse_port_mapping-formats_example =
    parse_port_mapping-formats (bytes "REDIS_PORT") 6379 80 redis_is_name (omega arith)
