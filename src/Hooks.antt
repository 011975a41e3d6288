-- ===== src/Hooks.antt =====
-- src/domain/hook_executor.go: the `KEY=VALUE` lines that a hook prints, and the writer that redacts
-- them. The process and its exit are the operating system's.
mod Lines
mod Redaction
mod Samples
use previewctl.Config.{is_empty, ProjectConfig, ServiceConfig, resolved_env_file}
use previewctl.Ports.{PortMap}
use previewctl.Template.{TemplateContext, render_env_map}
use previewctl.Base.{
  ℕ, zero, suc, ◌+◌, ◌-◌, ◌*◌, ◌/◌, ◌%◌, ◌^◌, ◌≤◌, ◌<◌, Bool, true, false, ◌&&◌, ◌||◌, not, Option,
  none, some, List, [], ◌∷◌, ◌++◌, map, reverse, ◌≡◌, refl, sym, ap, ◌∙◌, subst, ◌≢◌, ◌↔◌, ◌⊎◌, inl,
  inr, arith, Text, bytes, ◌==◌, eq_iff, eq_refl, Map, lookup, insert, erase, keys, lookup-insert,
  lookup-erase, HasUniqueKeys, if◌then◌else◌, ltb, leb, eqb, is_some, get_or, Bool-cases,
  Option-cases, length, elem, count, All, Result, ok, err, trim_space, has_prefix, split, cut,
  drop_prefix, join,
}

-- `line == "" || strings.HasPrefix(line, "#")`
abbrev pub is_skipped : Text → Bool
is_skipped trimmed = is_empty trimmed || has_prefix trimmed (bytes "#")

unfoldable pub sanitize_output_line : Text → Text
sanitize_output_line line =
    let trimmed = trim_space line in
    if is_skipped trimmed then line else elim (cut b'=' trimmed) [
      | none ↦ line
      | some (key, _) ↦ trim_space key ++ bytes "=********"
    ]

unfoldable pub extract_global_outputs : Map Text → Map Text
extract_global_outputs [] = []
extract_global_outputs ((key, value) ∷ outputs) =
    let globals = extract_global_outputs outputs in
    if has_prefix key (bytes "GLOBAL_")
    then (drop_prefix key (bytes "GLOBAL_"), value) ∷ globals
    else globals

-- The loop over the lines; a later line replaces the value of an earlier one.
unfoldable pub parse_lines : Map Text → List Text → Map Text
parse_lines result [] = result
parse_lines result (raw ∷ lines) =
    let line = trim_space raw in
    parse_lines
      (if is_skipped line then result else elim (cut b'=' line) [
        | none ↦ result
        | some (key, value) ↦ insert (trim_space key) (trim_space value) result
      ])
      lines

unfoldable pub parse_hook_output : Text → Map Text
unfolding parse_lines
parse_hook_output output = parse_lines [] (split 0x0a output)

-- The declared outputs that are not there, `missing`.
unfoldable pub missing_outputs : Map Text → List Text → List Text
missing_outputs outputs [] = []
missing_outputs outputs (key ∷ declared) =
    let rest = missing_outputs outputs declared in
    if is_some (lookup key outputs) then rest else key ∷ rest

-- `ExecuteCoreHook`: `finished` is what the process printed, or the error of `cmd.Run`.
unfoldable pub execute_core_hook : Result Text → List Text → Result (Map Text)
unfolding parse_hook_output missing_outputs
execute_core_hook (err e) declared = err (bytes "hook failed: " ++ e)
execute_core_hook (ok stdout) declared =
    let outputs = parse_hook_output stdout in
    let missing = missing_outputs outputs declared in
    if is_empty missing
    then ok outputs
    else err (bytes "hook did not produce required outputs: " ++ join (bytes ", ") missing)

-- `sanitizingWriter`, over a destination `D`.
pub record SanitizingWriter (D : Type 0) : Type 0 where
  pub dest : D
  pub buf : Text

-- `fmt.Fprintln(w.dest, line)`: the destination after it, and whether there was no error.
module _ {D : Type 0} (fprintln : Text → D → D × Bool) where
  -- The loop of `Write`. Every round takes a line off the buffer, so that its length is enough fuel.
  unfoldable pub write_lines : ℕ → SanitizingWriter D → SanitizingWriter D × Bool
  unfolding sanitize_output_line
  write_lines zero w = (w, true)
  write_lines (suc fuel) w = elim (cut 0x0a w.buf) [
    | none ↦ (w, true)
    | some (line, rest) ↦
        let printed = fprintln (sanitize_output_line line) w.dest in
        let w' : SanitizingWriter D = record { dest = printed.0; buf = rest } in
        elim printed.1 [ true ↦ write_lines fuel w' | false ↦ (w', false) ]
  ]

  unfoldable pub write : Text → SanitizingWriter D → SanitizingWriter D × Bool
  unfolding write_lines
  write p w = write_lines (length (w.buf ++ p)) (record w { buf = w.buf ++ p })

  unfoldable pub flush : SanitizingWriter D → SanitizingWriter D × Bool
  unfolding sanitize_output_line
  flush w =
      if is_empty w.buf
      then (w, true)
      else let printed = fprintln (sanitize_output_line w.buf) w.dest in
        (record { dest = printed.0; buf = [] }, printed.1)
