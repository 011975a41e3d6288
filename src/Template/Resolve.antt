-- ===== src/Template/Resolve.antt =====
-- How `render_template` composes: texts, placeholders and what follows them.
use previewctl.Base.{
  Lacks, ℕ, some, List, [], ◌∷◌, ◌++◌, ◌≡◌, refl, sym, inl, inr, arith, Text, Map, lookup, is_some,
  ok, ◌>>=◌, Result-cases, append-nil,
}
use previewctl.Template.{
  Segment, placeholder, segments, placeholder_value, render_segments, render_template,
  render_env_map, TemplateContext, scan,
}
use previewctl.Template.Scan.{literals, segments-append, segments-placeholder}

render_segments-literals :
    (a : Text) (rest : List Segment) (ctx : TemplateContext)
    → render_segments (literals a ++ rest) ctx
      ≡ (render_segments rest ctx >>= λ (text : Text). ok (a ++ text))
unfolding literals render_segments
render_segments-literals [] rest ctx = elim (Result-cases (render_segments rest ctx)) [
  | inl r ↦ rw (r.1) refl
  | inr r ↦ rw (r.1) refl
]
render_segments-literals (x ∷ a) rest ctx =
    ground (arith, render_segments-literals a rest ctx, Result-cases (render_segments rest ctx))

plain :
    (before : Text) (ctx : TemplateContext)
    → Lacks b'{' before
    → render_template (before ++ []) ctx ≡ ok (before ++ [])
unfolding render_template render_segments segments scan
plain before ctx h = rw (segments-append before [] h) (render_segments-literals before [] ctx)

-- A text with no opening brace is rendered as it stands. Between such a text and what follows, the
-- placeholder of a nonempty variable with no closing brace is replaced by the variable's value, and
-- what follows is rendered for itself; the first error from left to right is the result.
pub render_template-placeholder :
    (before : Text) (x : ℕ) (var after : Text) (ctx : TemplateContext)
    → Lacks b'{' before
    → Lacks b'}' (x ∷ var)
    → (render_template before ctx ≡ ok before)
      × (render_template (before ++ (b'{' ∷ b'{' ∷ ((x ∷ var) ++ (b'}' ∷ b'}' ∷ after)))) ctx ≡ (
          placeholder_value (x ∷ var) ctx >>= λ value.
          render_template after ctx >>= λ (text : Text). ok (before ++ (value ++ text))))
unfolding render_template render_segments
render_template-placeholder before x var after ctx ha hv = (
  rw (sym (append-nil before)) (plain before ctx ha),
  rw
      (
        segments-append before (b'{' ∷ b'{' ∷ ((x ∷ var) ++ (b'}' ∷ b'}' ∷ after))) ha,
        segments-placeholder x var after hv,
      )
      (ground (
        arith,
        render_segments-literals before (placeholder (x ∷ var) ∷ segments after) ctx,
        Result-cases (placeholder_value (x ∷ var) ctx),
        Result-cases (render_segments (segments after) ctx),
      )),
)

-- `RenderEnvMap` succeeds with the keys of its argument, and each key has the result of
-- rendering its text.
pub lookup-render_env_map :
    (env : Map Text) (ctx : TemplateContext) (out : Map Text) (key : Text)
    → render_env_map env ctx ≡ ok out
    → (is_some (lookup key out) ≡ is_some (lookup key env))
      × ((text value : Text)
          → lookup key env ≡ some text
          → lookup key out ≡ some value
          → render_template text ctx ≡ ok value)
unfolding render_env_map lookup
lookup-render_env_map [] ctx out key h = (ground arith, λ text value a b. cc)
lookup-render_env_map ((k, v) ∷ env) ctx out key h = elim (Result-cases (render_template v ctx)) [
  | inr r ↦ absurd (ground arith)
  | inl r ↦ elim (Result-cases (render_env_map env ctx)) [
    | inr q ↦ absurd (ground arith)
    | inl q ↦
        let ih = lookup-render_env_map env ctx q.0 key q.1 in
        (ground arith, λ text value a b. ground (arith, ih.1 text value))
  ]
]
