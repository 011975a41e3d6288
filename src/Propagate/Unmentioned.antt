-- ===== src/Propagate/Unmentioned.antt =====
-- Texts that do not mention what `diffStoreKeys` of src/domain/propagate.go reports, rendered before
-- and after the change.
use previewctl.Base.{
  true, false, ◌||◌, not, List, [], ◌∷◌, ◌++◌, ◌≡◌, refl, sym, ap, ◌∙◌, subst, inl, inr, arith,
  Text, bytes, ◌==◌, eq_iff, Map, lookup, if◌then◌else◌, Bool-cases, elem, contains, join,
  trim_space, append_assoc, Text-cases, split-cons,
}
use previewctl.Config.{is_empty}
use previewctl.Template.{
  self_port, proxy_value, Segment, literal, placeholder, segments, var_parts, TemplateContext,
  resolve_var, resolve_store, resolve_provisioner_var, placeholder_value, render_segments,
  render_template, render_env_map, resolve_self, resolve_env, resolve_proxy,
}
use previewctl.Validate.Renders.{store-provisioner}
use previewctl.Propagate.{needles, store_needles, contains_any, mentions}
use previewctl.Propagate.Within.{
  Within, Within-trans, contains-Within, trim_space-Within, join-split, Each, segments-Within,
}

-- The two contexts differ in the outputs of one provisioner service and in the values of some keys of
-- the store only.
pub record DiffersIn (provisioner_name : Text) (changed : List Text) (old new : TemplateContext)
    : Type 0 where
  pub service_ports : old.service_ports ≡ new.service_ports
  pub infra_ports : old.infra_ports ≡ new.infra_ports
  pub current_service : old.current_service ≡ new.current_service
  pub env_name : old.env_name ≡ new.env_name
  pub proxy_domain : old.proxy_domain ≡ new.proxy_domain
  pub outputs :
      (s : Text)
      → (is_empty provisioner_name || not (provisioner_name == s)) ≡ true
      → lookup s old.provisioner_outputs ≡ lookup s new.provisioner_outputs
  pub store : (k : Text) → elem k changed ≡ false → lookup k old.store ≡ lookup k new.store

elem-needles :
    (changed : List Text) (k s : Text)
    → elem k changed ≡ true
    → contains s (bytes "store." ++ k) ≡ true
    → contains_any (store_needles changed) s ≡ true
unfolding elem contains_any
elem-needles [] k s m h = absurd (ground arith)
elem-needles (j ∷ changed) k s m h = ground (arith, eq_iff j k, elem-needles changed k s)

contains_any-append :
    (a b : List Text) (s : Text) → contains_any (a ++ b) s ≡ (contains_any a s || contains_any b s)
unfolding contains_any
contains_any-append [] b s = refl
contains_any-append (n ∷ a) b s = ground (arith, contains_any-append a b s)

module _ (provisioner_name : Text) (changed : List Text) (old new : TemplateContext)
    (differ : DiffersIn provisioner_name changed old new) (s : Text)
    (unmentioned : contains_any (needles provisioner_name changed) s ≡ false) where
  no_store : (k : Text) → Within (bytes "store." ++ k) s → elem k changed ≡ false
  unfolding needles
  no_store k w = elim (Bool-cases (elem k changed)) [
    | inr e ↦ e
    | inl e ↦ absurd (
        ground (
          arith,
          contains_any-append
              (if is_empty provisioner_name
                then []
                else (bytes "provisioner." ++ (provisioner_name ++ bytes ".")) ∷ [])
              (store_needles changed) s,
          elem-needles changed k s e (contains-Within (bytes "store." ++ k) s w),
          unmentioned,
        ))
  ]

  no_provisioner :
      (n : Text)
      → Within (bytes "provisioner." ++ (n ++ bytes ".")) s
      → (is_empty provisioner_name || not (provisioner_name == n)) ≡ true
  unfolding needles contains_any
  no_provisioner n w = ground (
    arith,
    contains-Within (bytes "provisioner." ++ (n ++ bytes ".")) s w,
    unmentioned,
    eq_iff provisioner_name n,
  )

  self-same : (rest : List Text) → resolve_self rest old ≡ resolve_self rest new
  unfolding resolve_self self_port
  self-same [] = ground (arith, differ.current_service)
  self-same (p ∷ []) = ground (arith, differ.current_service, differ.service_ports)
  self-same (p ∷ q ∷ r) = ground (arith, differ.current_service)

  env-same : (rest : List Text) → resolve_env rest old ≡ resolve_env rest new
  unfolding resolve_env
  env-same [] = refl
  env-same (p ∷ []) = ground (arith, differ.env_name)
  env-same (p ∷ q ∷ r) = refl

  proxy-same : (rest : List Text) → resolve_proxy rest old ≡ resolve_proxy rest new
  unfolding resolve_proxy proxy_value
  proxy-same [] = ground (arith, differ.proxy_domain)
  proxy-same (p ∷ []) = ground (arith, differ.proxy_domain)
  proxy-same (p ∷ q ∷ []) =
      ground (arith, differ.proxy_domain, differ.env_name, differ.service_ports)
  proxy-same (p ∷ q ∷ r ∷ t) = ground (arith, differ.proxy_domain)

  store-same :
      (rest : List Text)
      → Within (join (bytes ".") (bytes "store" ∷ rest)) s
      → resolve_store rest old ≡ resolve_store rest new
  unfolding resolve_store join bytes
  store-same [] w = refl
  store-same (k ∷ []) w = ground (arith, differ.store k (no_store k w))
  store-same (p ∷ q ∷ r) w = refl

  provisioner-Within :
      (n o : Text)
      → Within
          (bytes "provisioner." ++ (n ++ bytes "."))
          (join (bytes ".") (bytes "provisioner" ∷ n ∷ o ∷ []))
  unfolding join bytes
  provisioner-Within n o = record { before = []; after = o; whole = simp append_assoc refl }

  provisioner-same :
      (rest : List Text)
      → Within (join (bytes ".") (bytes "provisioner" ∷ rest)) s
      → resolve_provisioner_var rest old ≡ resolve_provisioner_var rest new
  unfolding resolve_provisioner_var
  provisioner-same [] w = refl
  provisioner-same (n ∷ []) w = refl
  provisioner-same (n ∷ o ∷ []) w =
      let path = join (bytes ".") (bytes "provisioner" ∷ n ∷ o ∷ []) in
      let part = bytes "provisioner." ++ (n ++ bytes ".") in
      ground (
        arith,
        differ.outputs n (no_provisioner n (Within-trans part path s (provisioner-Within n o) w)),
      )
  provisioner-same (n ∷ o ∷ p ∷ r) w = refl

  var-same :
      (space : Text) (rest : List Text)
      → Within (join (bytes ".") (space ∷ rest)) s
      → resolve_var (space ∷ rest) old ≡ resolve_var (space ∷ rest) new
  unfolding resolve_var
  var-same space rest w = elim (Text-cases space (bytes "store")) [
    | inl e ↦ ground (
      arith,
      self-same rest,
      store-same rest (subst (λ (t : Text). Within (join (bytes ".") (t ∷ rest)) s) e w),
      env-same rest,
      proxy-same rest,
      differ.service_ports,
      differ.infra_ports,
      store-provisioner,
      eq_iff space (bytes "provisioner"),
    )
    | inr n ↦ elim (Text-cases space (bytes "provisioner")) [
      | inl e ↦ ground (
        arith,
        self-same rest,
        provisioner-same rest (subst (λ (t : Text). Within (join (bytes ".") (t ∷ rest)) s) e w),
        env-same rest,
        proxy-same rest,
        differ.service_ports,
        differ.infra_ports,
      )
      | inr m ↦ ground (
        arith,
        self-same rest,
        env-same rest,
        proxy-same rest,
        differ.service_ports,
        differ.infra_ports,
      )
    ]
  ]

  placeholder-same :
      (var : Text) → Within var s → placeholder_value var old ≡ placeholder_value var new
  unfolding placeholder_value var_parts
  placeholder-same var w =
      let t = trim_space var in
      let p = split-cons b'.' t in
      let in_t : Within (join (bytes ".") (p.0 ∷ p.1)) s =
        subst (λ (u : Text). Within u s) (sym (join-split t) ∙ ap (join (bytes ".")) p.2)
          (Within-trans t var s (trim_space-Within var) w) in
      ground (arith, var-same p.0 p.1 in_t, p.2)

  render-same :
      (ss : List Segment)
      → Each (λ (v : Text). Within v s) ss
      → render_segments ss old ≡ render_segments ss new
  unfolding render_segments
  render-same [] h = refl
  render-same (literal c ∷ ss) h = ground (arith, render-same ss h)
  render-same (placeholder v ∷ ss) h = ground (arith, placeholder-same v h.0, render-same ss h.1)

  pub template-same : render_template s old ≡ render_template s new
  unfolding render_template
  template-same = render-same (segments s) (segments-Within s)

env-unmentioned :
    (ns : List Text) (k v : Text) (env : Map Text)
    → mentions ns ((k, v) ∷ env) ≡ false
    → (contains_any ns v ≡ false) × (mentions ns env ≡ false)
unfolding mentions
env-unmentioned ns k v env h = (ground (arith, h), ground (arith, h))

module _ (provisioner_name : Text) (changed : List Text) (old new : TemplateContext)
    (differ : DiffersIn provisioner_name changed old new) where
  pub env_map-same :
      (env : Map Text)
      → mentions (needles provisioner_name changed) env ≡ false
      → render_env_map env old ≡ render_env_map env new
  unfolding render_env_map
  env_map-same [] h = refl
  env_map-same ((k, v) ∷ env) h =
      let both = env-unmentioned (needles provisioner_name changed) k v env h in
      ground (
        arith,
        template-same provisioner_name changed old new differ v both.0,
        env_map-same env both.1,
      )
