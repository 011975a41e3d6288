-- ===== src/Hooks/Samples.antt =====
-- A destination that keeps what it is given, and the theorems at it.
use previewctl.Base.{
  Bool, true, false, List, [], ◌∷◌, ◌++◌, ◌≡◌, refl, arith, Text, bytes, ◌==◌, lookup, insert, ok,
  err, has_prefix, Lacks, cut, trim_space, split, join, drop_prefix,
}
use previewctl.Hooks.{
  SanitizingWriter, write, flush, sanitize_output_line, parse_hook_output, execute_core_hook,
  extract_global_outputs,
}
use previewctl.Hooks.Lines.{write-append}
use previewctl.Hooks.Redaction.{sanitize_output_line-redacts}

abbrev keep : Text → List Text → List Text × Bool
keep line lines = (lines ++ line ∷ [], true)

abbrev empty : SanitizingWriter (List Text)
empty = record { dest = []; buf = [] }

program : Unit {0}
unfolding sanitize_output_line parse_hook_output execute_core_hook extract_global_outputs write
    flush has_prefix cut split trim_space insert lookup bytes join drop_prefix ◌==◌
program = tt

sanitize_output_line-secret : sanitize_output_line (bytes " TOKEN = abc ") ≡ bytes "TOKEN=********"
unfolding program
sanitize_output_line-secret = refl

execute_core_hook-missing :
    execute_core_hook (ok (0x0a ∷ bytes "URL = db")) (bytes "URL" ∷ bytes "KEY" ∷ [])
    ≡ err (bytes "hook did not produce required outputs: KEY")
unfolding program
execute_core_hook-missing = refl

extract_global_outputs-two :
    extract_global_outputs ((bytes "GLOBAL_A", bytes "1") ∷ (bytes "B", bytes "2") ∷ [])
    ≡ (bytes "A", bytes "1") ∷ []
unfolding program
extract_global_outputs-two = refl

flush-rest : (flush keep (write keep (bytes "A=1") empty).0).0.dest ≡ bytes "A=********" ∷ []
unfolding program
flush-rest = refl

write-append_example :
    write keep (bytes "B=2") (write keep (bytes "A=1") empty).0
    ≡ write keep (bytes "A=1" ++ bytes "B=2") empty
write-append_example = write-append keep (λ line d. refl) (bytes "A=1") (bytes "B=2") empty

token-Lacks : Lacks b'=' (bytes "TOKEN")
unfolding bytes
token-Lacks = ground arith

no_comment : has_prefix (trim_space (bytes "TOKEN" ++ (b'=' ∷ []))) (bytes "#") ≡ false
unfolding program
no_comment = refl

sanitize_output_line-redacts_example :
    sanitize_output_line (bytes "TOKEN" ++ (b'=' ∷ bytes "abc"))
    ≡ sanitize_output_line (bytes "TOKEN" ++ (b'=' ∷ bytes "xyz"))
sanitize_output_line-redacts_example =
    sanitize_output_line-redacts (bytes "TOKEN") (bytes "abc") (bytes "xyz") token-Lacks no_comment
