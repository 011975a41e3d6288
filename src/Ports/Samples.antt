-- ===== src/Ports/Samples.antt =====
-- A port allocation, and the theorems at it.
use previewctl.Base.{
  ℕ, ◌+◌, ◌≤◌, ◌<◌, Bool, true, not, List, [], ◌∷◌, ◌≡◌, refl, ◌≢◌, Text, bytes, ◌==◌, insert, eqb,
  length, ok, text_ltb, sort,
}
use previewctl.Ports.{
  allocate_port_block, pick_block_start, PortMap, fnv32a, port_range_start, port_range_end,
  ports_per_env,
}
use previewctl.Ports.Blocks.{
  IsAllocation, allocate_port_block-IsAllocation, allocate_port_block_capacity,
}

-- Every port but the second of the block is free.
abbrev busy_second : ℕ → Bool
busy_second port = not (eqb port (pick_block_start (bytes "demo") + 1))

abbrev names : List Text
names = bytes "web" ∷ bytes "api" ∷ []

abbrev allocated : PortMap
allocated = (bytes "api", 62400) ∷ (bytes "web", 62402) ∷ []

program : Unit {0}
unfolding allocate_port_block pick_block_start fnv32a bytes sort text_ltb insert ◌==◌
program = tt

allocate_port_block-names : allocate_port_block busy_second (bytes "demo") names ≡ ok allocated
unfolding program
allocate_port_block-names = refl

allocate_port_block-IsAllocation_example :
    IsAllocation busy_second (pick_block_start (bytes "demo")) names allocated
    × (port_range_start ≤ pick_block_start (bytes "demo"))
    × (pick_block_start (bytes "demo") + ports_per_env ≤ port_range_end)
allocate_port_block-IsAllocation_example =
    allocate_port_block-IsAllocation busy_second (bytes "demo") names allocated
      allocate_port_block-names

allocate_port_block_capacity_example :
    (length names ≤ ports_per_env
      → (ports : PortMap) × (allocate_port_block (λ _. true) (bytes "demo") names ≡ ok ports))
    × (ports_per_env < length names
        → (ports : PortMap) → allocate_port_block (λ _. true) (bytes "demo") names ≢ ok ports)
allocate_port_block_capacity_example =
    allocate_port_block_capacity (λ _. true) (bytes "demo") names (λ port. refl)
