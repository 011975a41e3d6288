-- ===== src/Compose/Mappings.antt =====
-- The three formats of a port mapping in src/domain/compose.go.
use previewctl.Base.{
  Lacks, cut-append, append-nil, ℕ, ◌^◌, ◌<◌, Bool, true, false, none, [], ◌∷◌, ◌++◌, ◌≡◌, refl,
  sym, ap, ◌∙◌, arith, Text, eqb, ok, cut,
}
use previewctl.Ports.{decimal}
use previewctl.Compose.{
  is_digit, is_name_byte, all_bytes, is_number, is_name, env_parts_behind, env_parts, static_part,
  parse_port_mapping,
}
use previewctl.Compose.Numbers.{atoi-decimal, is_number-decimal}

-- A byte that the test refuses is not in a text that passes it.
all_bytes-Lacks :
    (p : ℕ → Bool) (c : ℕ) (s : Text)
    → ((x : ℕ) → p x ≡ true → eqb x c ≡ false)
    → all_bytes p s ≡ true
    → Lacks c s
unfolding all_bytes
all_bytes-Lacks p c [] differ h = tt
all_bytes-Lacks p c (x ∷ s) differ h =
    (differ x (ground (arith, h)), all_bytes-Lacks p c s differ (ground (arith, h)))

number-Lacks : (c : ℕ) (s : Text) → b'9' < c → is_number s ≡ true → Lacks c s
unfolding is_number
number-Lacks c s h n =
    all_bytes-Lacks is_digit c s (λ x d. ground (arith, h, d)) (ground (arith, n))

name-Lacks : (s : Text) → is_name s ≡ true → Lacks b':' s
unfolding is_name
name-Lacks [] h = tt
name-Lacks (x ∷ s) h = (
  ground (arith, h),
  all_bytes-Lacks is_name_byte b':' s (λ y d. ground (arith, d)) (ground (arith, h)),
)

cut-Lacks : (c : ℕ) (s : Text) → Lacks c s → cut c s ≡ none
unfolding cut
cut-Lacks c [] h = refl
cut-Lacks c (x ∷ s) h = ground (arith, h.0, cut-Lacks c s h.1)

-- A text of digits does not begin with a dollar.
env_parts-number : (s rest : Text) → is_number s ≡ true → env_parts (s ++ rest) ≡ none
unfolding is_number all_bytes env_parts
env_parts-number [] rest h = absurd (ground (arith, h))
env_parts-number (x ∷ []) [] h = refl
env_parts-number (x ∷ []) (y ∷ rest) h = ground (arith, h)
env_parts-number (x ∷ y ∷ s) rest h = ground (arith, h)

-- The three supported formats: `NAME` and a port with the container's port, two ports, and the
-- container's port alone. Each gives the port that it names, if it is a 64-bit integer, and the first
-- the variable too.
pub parse_port_mapping-formats :
    (name : Text) (port container : ℕ)
    → is_name name ≡ true
    → port < 2 ^ 63
    → (parse_port_mapping (
          b'$'
          ∷ b'{'
          ∷ (name ++ (b':' ∷ b'-' ∷ (decimal port ++ (b'}' ∷ b':' ∷ decimal container)))))
        ≡ ok (name, port))
      × (parse_port_mapping (decimal port ++ (b':' ∷ decimal container)) ≡ ok ([], port))
      × (parse_port_mapping (decimal port) ≡ ok ([], port))
unfolding parse_port_mapping env_parts env_parts_behind static_part
parse_port_mapping-formats name port container h small =
    let p = decimal port in
    let c = decimal container in
    (
      ground (
        arith,
        h,
        cut-append b':' name (b'-' ∷ (p ++ (b'}' ∷ b':' ∷ c))) (name-Lacks name h),
        cut-append b'}' p (b':' ∷ c) (number-Lacks b'}' p (omega arith) (is_number-decimal port)),
        is_number-decimal port,
        is_number-decimal container,
        atoi-decimal port small,
      ),
      ground (
        arith,
        env_parts-number p (b':' ∷ c) (is_number-decimal port),
        cut-append b':' p c (number-Lacks b':' p (omega arith) (is_number-decimal port)),
        is_number-decimal port,
        is_number-decimal container,
        atoi-decimal port small,
      ),
      ground (
        arith,
        ap env_parts (sym (append-nil p)) ∙ env_parts-number p [] (is_number-decimal port),
        cut-Lacks b':' p (number-Lacks b':' p (omega arith) (is_number-decimal port)),
        is_number-decimal port,
        atoi-decimal port small,
      ),
    )
