-- ===== src/Ports.antt =====
-- src/domain/port_allocator.go: the block of ports that belongs to an environment's name, and the
-- assignment of one free port of the block to each service.
mod Blocks
mod Samples
use previewctl.Base.{
  Text, Map, lookup, insert, keys, ℕ, zero, suc, ◌+◌, ◌-◌, ◌*◌, ◌/◌, ◌%◌, ◌^◌, bit_xor, Bool, true,
  false, Option, none, some, List, [], ◌∷◌, ◌++◌, bytes, leb, ltb, length, reverse, if◌then◌else◌,
  Result, ok, err, sort,
}
use previewctl.Config.{ProjectConfig}

abbrev pub port_range_start : ℕ
port_range_start = 61000

abbrev pub port_range_end : ℕ
port_range_end = 65000

abbrev pub ports_per_env : ℕ
ports_per_env = 100

abbrev pub max_environments : ℕ
max_environments = (port_range_end - port_range_start) / ports_per_env

-- `PortMap`
abbrev pub PortMap : Type 0
PortMap = Map ℕ

-- `hash/fnv`, 32-bit FNV-1a.
fnv32a_from : ℕ → Text → ℕ
fnv32a_from h [] = h
fnv32a_from h (b ∷ bs) = fnv32a_from (bit_xor h b * 16777619 % 2 ^ 32) bs

unfoldable pub fnv32a : Text → ℕ
unfolding fnv32a_from
fnv32a s = fnv32a_from 2166136261 s

unfoldable pub pick_block_start : Text → ℕ
pick_block_start env_name = port_range_start + fnv32a env_name % max_environments * ports_per_env

-- `%d` of a number: the digits, the last one first, with fuel for at most `n` of them.
unfoldable pub digits_reversed : ℕ → ℕ → Text
digits_reversed zero n = []
digits_reversed (suc fuel) n =
    let more = digits_reversed fuel (n / 10) in (b'0' + n % 10) ∷ (if ltb n 10 then [] else more)

unfoldable pub decimal : ℕ → Text
unfolding digits_reversed
decimal n = reverse (digits_reversed (suc n) n)

-- `is_free` answers for a port at the time when it is asked; every port is asked at most once.
module _ (is_free : ℕ → Bool) where
  -- The loop `for !isPortFree(port)`: the offset of the first free port of the block from `offset`
  -- on. The fuel is the number of ports that are left in the block, and `none` its end.
  pub next_free : ℕ → ℕ → ℕ → Option ℕ
  next_free zero block_start offset = none
  next_free (suc left) block_start offset =
      let later = next_free left block_start (offset + 1) in
      if is_free (block_start + offset) then some offset else later

  -- The loop over the sorted names. `total` is the number of services, for the message.
  pub assign_ports : (total block_start offset : ℕ) → PortMap → List Text → Result PortMap
  unfolding next_free decimal
  assign_ports total block_start offset ports [] = ok ports
  assign_ports total block_start offset ports (name ∷ names) =
      if leb (block_start + ports_per_env) (block_start + offset)
      then err (
          bytes "too many services ("
          ++ (decimal total
              ++ (bytes ") for port block size (" ++ (decimal ports_per_env ++ bytes ")"))))
      else elim (next_free (ports_per_env - offset) block_start offset) [
        | none ↦ err (
            bytes "could not find free ports in block "
            ++ (decimal block_start ++ (bytes "-" ++ decimal (block_start + ports_per_env - 1))))
        | some found ↦
            assign_ports total block_start (found + 1) (insert name (block_start + found) ports)
              names
      ]

  unfoldable pub allocate_port_block : Text → List Text → Result PortMap
  unfolding assign_ports
  allocate_port_block env_name service_names =
      assign_ports (length service_names) (pick_block_start env_name) 0 [] (sort service_names)

-- `ServiceNames`
unfoldable pub service_names : ProjectConfig → List Text
service_names c = sort (keys c.services ++ keys c.infra_services)
