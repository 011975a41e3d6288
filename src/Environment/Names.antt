-- ===== src/Environment/Names.antt =====
-- `SanitizeName` of src/domain/environment.go.
use previewctl.Base.{ℕ, suc, ◌≤◌, [], ◌∷◌, ◌≡◌, refl, ap, ◌⊎◌, arith, Text, length, All}
use previewctl.Environment.{sanitize_name, sanitize_byte}

-- A lowercase letter, a digit, a hyphen or an underscore.
abbrev pub IsSafe : ℕ → Type 0
IsSafe c = ((b'a' ≤ c) × (c ≤ b'z')) ⊎ (((b'0' ≤ c) × (c ≤ b'9')) ⊎ ((c ≡ b'-') ⊎ (c ≡ b'_')))

sanitize_byte-IsSafe : (c : ℕ) → IsSafe (sanitize_byte c)
unfolding sanitize_byte
sanitize_byte-IsSafe c = ground arith

sanitize_byte_of_IsSafe : (c : ℕ) → IsSafe c → sanitize_byte c ≡ c
unfolding sanitize_byte
sanitize_byte_of_IsSafe c h = ground arith

sanitize_name-All : (name : Text) → All IsSafe (sanitize_name name)
unfolding sanitize_name
sanitize_name-All [] = tt
sanitize_name-All (c ∷ name) = (sanitize_byte-IsSafe c, sanitize_name-All name)

sanitize_name_of_All : (name : Text) → All IsSafe name → sanitize_name name ≡ name
unfolding sanitize_name
sanitize_name_of_All [] h = refl
sanitize_name_of_All (c ∷ name) h =
    ground (arith, sanitize_byte_of_IsSafe c h.0, sanitize_name_of_All name h.1)

length-sanitize_name : (name : Text) → length (sanitize_name name) ≡ length name
unfolding sanitize_name
length-sanitize_name [] = refl
length-sanitize_name (c ∷ name) = ap suc (length-sanitize_name name)

-- `SanitizeName` gives a name of the same number of bytes, all of them lowercase letters, digits,
-- hyphens and underscores; it leaves such a name as it is, so that a second pass changes nothing.
pub sanitize_name_lem :
    (name : Text)
    → All IsSafe (sanitize_name name)
      × (length (sanitize_name name) ≡ length name)
      × (All IsSafe name → sanitize_name name ≡ name)
      × (sanitize_name (sanitize_name name) ≡ sanitize_name name)
sanitize_name_lem name = (
  sanitize_name-All name,
  length-sanitize_name name,
  sanitize_name_of_All name,
  sanitize_name_of_All (sanitize_name name) (sanitize_name-All name),
)
