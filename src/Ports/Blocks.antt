-- ===== src/Ports/Blocks.antt =====
-- The ports that `AllocatePortBlock` of src/domain/port_allocator.go gives, and the block of the
-- environment.
use previewctl.Base.{
  ℕ, zero, suc, ◌+◌, ◌-◌, ◌≤◌, ◌<◌, Bool, true, ◌||◌, some, List, [], ◌∷◌, ◌≡◌, refl, subst, ◌≢◌,
  inl, inr, arith, Text, eq_iff, lookup, insert, lookup-insert, is_some, Option-cases, length, elem,
  ok, sort, elem-sort, length-sort,
}
use previewctl.Ports.{
  port_range_start, port_range_end, ports_per_env, PortMap, pick_block_start, next_free,
  assign_ports, allocate_port_block, Text, ℕ, Bool, ok,
}

pub pick_block_start_bounds :
    (env_name : Text)
    → (port_range_start ≤ pick_block_start env_name)
      × (pick_block_start env_name + ports_per_env ≤ port_range_end)
unfolding pick_block_start
pick_block_start_bounds env_name = ground arith

-- The offset that the search returns: the first free one from `offset` on.
next_free_lem :
    (is_free : ℕ → Bool) (left block_start offset found : ℕ)
    → next_free is_free left block_start offset ≡ some found
    → (offset ≤ found) × (found < offset + left) × (is_free (block_start + found) ≡ true)
unfolding next_free
next_free_lem is_free zero block_start offset found h = ground arith
next_free_lem is_free (suc left) block_start offset found h =
    ground (arith, next_free_lem is_free left block_start (offset + 1) found)

-- What holds of an allocation in the block that begins at `block_start`.
pub record IsAllocation (is_free : ℕ → Bool) (block_start : ℕ) (names : List Text) (ports : PortMap)
    : Type 0 where
  pub assigned : (name : Text) → is_some (lookup name ports) ≡ elem name names
  pub in_block :
      (name : Text) (port : ℕ)
      → lookup name ports ≡ some port
      → (block_start ≤ port) × (port < block_start + ports_per_env)
  pub free : (name : Text) (port : ℕ) → lookup name ports ≡ some port → is_free port ≡ true
  pub distinct :
      (name other : Text) (port : ℕ)
      → lookup name ports ≡ some port
      → lookup other ports ≡ some port
      → name ≡ other

-- The same for an allocation that has come as far as `offset`.
record IsPartial (is_free : ℕ → Bool) (block_start offset : ℕ) (ports : PortMap) : Type 0 where
  below :
      (name : Text) (port : ℕ)
      → lookup name ports ≡ some port
      → (block_start ≤ port) × (port < block_start + offset)
  within : offset ≤ ports_per_env
  free : (name : Text) (port : ℕ) → lookup name ports ≡ some port → is_free port ≡ true
  distinct :
      (name other : Text) (port : ℕ)
      → lookup name ports ≡ some port
      → lookup other ports ≡ some port
      → name ≡ other

module _ (is_free : ℕ → Bool) (block_start : ℕ) where
  IsPartial-insert :
      (offset found : ℕ) (ports : PortMap) (name : Text)
      → IsPartial is_free block_start offset ports
      → offset ≤ found
      → found < ports_per_env
      → is_free (block_start + found) ≡ true
      → IsPartial is_free block_start (found + 1) (insert name (block_start + found) ports)
  IsPartial-insert offset found ports name p h k f = record {
    below = λ n port e.
        ground
          (arith, eq_iff name n, p.below n port, lookup-insert name n (block_start + found) ports);
    within = omega arith;
    free = λ n port e.
        ground
          (arith, eq_iff name n, p.free n port, lookup-insert name n (block_start + found) ports);
    distinct = λ n o port e e'. ground (
      arith,
      eq_iff name n,
      eq_iff name o,
      p.distinct n o port,
      p.below n port,
      p.below o port,
      lookup-insert name n (block_start + found) ports,
      lookup-insert name o (block_start + found) ports,
    );
  }

  assign_ports_lem :
      (total : ℕ) (names : List Text) (offset : ℕ) (ports result : PortMap)
      → IsPartial is_free block_start offset ports
      → assign_ports is_free total block_start offset ports names ≡ ok result
      → (last : ℕ) × IsPartial is_free block_start last result
        × ((n : Text) → is_some (lookup n result) ≡ (is_some (lookup n ports) || elem n names))
  unfolding assign_ports elem
  assign_ports_lem total [] offset ports result p h =
      let same : ports ≡ result = cc in
      subst
        (λ r.
          (last : ℕ) × IsPartial is_free block_start last r
          × ((n : Text) → is_some (lookup n r) ≡ (is_some (lookup n ports) || elem n [])))
        same (offset, p, λ n. ground arith)
  assign_ports_lem total (name ∷ names) offset ports result p h =
      elim (Option-cases (next_free is_free (ports_per_env - offset) block_start offset)) [
        | inl full ↦ absurd (ground arith)
        | inr (found, at) ↦
            let (low, high, open_port) =
              next_free_lem is_free (ports_per_env - offset) block_start offset found at in
            let (last, q, names_of) =
              assign_ports_lem total names (found + 1) (insert name (block_start + found) ports)
                result
                (IsPartial-insert offset found ports name p low (omega (arith, p.within)) open_port)
                (ground arith) in
            (
              last,
              q,
              λ n. ground (arith, names_of n, lookup-insert name n (block_start + found) ports),
            )
      ]

-- `AllocatePortBlock`: when it succeeds, exactly the given services have a port, each in the block
-- of 100 ports that the environment's name selects (inside 61000..64999), each free when it was
-- asked, and no two services the same.
pub allocate_port_block-IsAllocation :
    (is_free : ℕ → Bool) (env_name : Text) (names : List Text) (ports : PortMap)
    → allocate_port_block is_free env_name names ≡ ok ports
    → IsAllocation is_free (pick_block_start env_name) names ports
      × (port_range_start ≤ pick_block_start env_name)
      × (pick_block_start env_name + ports_per_env ≤ port_range_end)
unfolding allocate_port_block lookup
allocate_port_block-IsAllocation is_free env_name names ports h =
    let start = pick_block_start env_name in
    let (last, p, names_of) =
      assign_ports_lem is_free start (length names) (sort names) 0 [] ports (empty start) h in
    (
      record {
        assigned = λ n. ground (arith, names_of n, elem-sort n names);
        in_block = λ n port e. ground (arith, p.below n port, p.within);
        free = p.free;
        distinct = p.distinct;
      },
      (pick_block_start_bounds env_name).0,
      (pick_block_start_bounds env_name).1,
    )
  where
    empty : (start : ℕ) → IsPartial is_free start 0 []
    empty start = record {
      below = λ n port e. ground arith;
      within = omega arith;
      free = λ n port e. ground arith;
      distinct = λ n o port e e'. ground arith;
    }

-- With every port free the search stops where it begins.
next_free_all :
    (is_free : ℕ → Bool) (left block_start offset : ℕ)
    → is_free (block_start + offset) ≡ true
    → 0 < left
    → next_free is_free left block_start offset ≡ some offset
unfolding next_free
next_free_all is_free zero block_start offset f h = absurd (omega arith)
next_free_all is_free (suc left) block_start offset f h = ground arith

module _ (is_free : ℕ → Bool) (all_free : (port : ℕ) → is_free port ≡ true) (block_start : ℕ) where
  assign_ports_enough :
      (total : ℕ) (names : List Text) (offset : ℕ) (ports : PortMap)
      → offset + length names ≤ ports_per_env
      → (result : PortMap) × (assign_ports is_free total block_start offset ports names ≡ ok result)
  unfolding assign_ports
  assign_ports_enough total [] offset ports h = (ports, refl)
  assign_ports_enough total (name ∷ names) offset ports h =
      let (result, e) =
        assign_ports_enough total names (offset + 1) (insert name (block_start + offset) ports)
          (omega arith) in
      (
        result,
        ground (
          arith,
          next_free_all is_free (ports_per_env - offset) block_start offset
              (all_free (block_start + offset)),
        ),
      )

  assign_ports_short :
      (total : ℕ) (names : List Text) (offset : ℕ) (ports result : PortMap)
      → offset ≤ ports_per_env
      → ports_per_env < offset + length names
      → assign_ports is_free total block_start offset ports names ≢ ok result
  unfolding assign_ports
  assign_ports_short total [] offset ports result k h e = omega arith
  assign_ports_short total (name ∷ names) offset ports result k h e = ground (
    arith,
    next_free_all is_free (ports_per_env - offset) block_start offset
        (all_free (block_start + offset)),
    assign_ports_short total names (offset + 1) (insert name (block_start + offset) ports) result,
  )

-- When every port is free, `AllocatePortBlock` succeeds for at most 100 services and returns an
-- error for more.
pub allocate_port_block_capacity :
    (is_free : ℕ → Bool) (env_name : Text) (names : List Text)
    → ((port : ℕ) → is_free port ≡ true)
    → (length names ≤ ports_per_env
        → (ports : PortMap) × (allocate_port_block is_free env_name names ≡ ok ports))
      × (ports_per_env < length names
          → (ports : PortMap) → allocate_port_block is_free env_name names ≢ ok ports)
unfolding allocate_port_block
allocate_port_block_capacity is_free env_name names all_free = (
  λ h.
      assign_ports_enough is_free all_free (pick_block_start env_name) (length names) (sort names) 0
        [] (omega (arith, length-sort names)),
  λ h ports.
      assign_ports_short is_free all_free (pick_block_start env_name) (length names) (sort names) 0
        [] ports (omega arith) (omega (arith, length-sort names)),
)
