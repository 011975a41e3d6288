-- ===== src/Propagate/Affected.antt =====
-- The services that `servicesAffectedByChange` of src/domain/propagate.go leaves out, and what the
-- change means for them.
use previewctl.Base.{
  false, some, List, [], ◌∷◌, ◌≡◌, arith, Text, eq_iff, Map, lookup, get_or, elem, elem-append,
}
use previewctl.Config.{ServiceConfig}
use previewctl.Template.{TemplateContext, render_template, render_env_map}
use previewctl.Propagate.{
  needs_compose, services_on, direct_paths, needles, contains_any, mentions, is_direct,
  direct_services, services_affected_by_change,
}
use previewctl.Propagate.Unmentioned.{DiffersIn, template-same, env_map-same}

elem-direct_services :
    (ns : List Text) (services : Map ServiceConfig) (name : Text) (svc : ServiceConfig)
    → lookup name services ≡ some svc
    → elem name (direct_services ns services) ≡ false
    → is_direct ns svc ≡ false
unfolding direct_services elem lookup
elem-direct_services ns [] name svc m h = absurd (cc (m))
elem-direct_services ns ((n, s) ∷ services) name svc m h =
    ground (arith, eq_iff n name, elem-direct_services ns services name svc, m, h)

no_start :
    (ns : List Text) (services : Map ServiceConfig) (name : Text) (svc : ServiceConfig)
    → lookup name services ≡ some svc
    → needs_compose ns services ≡ false
    → contains_any ns svc.start ≡ false
unfolding needs_compose lookup
no_start ns [] name svc m h = absurd (cc (m))
no_start ns ((n, s) ∷ services) name svc m h =
    ground (arith, eq_iff n name, no_start ns services name svc, m, h)

direct-split :
    (ns : List Text) (svc : ServiceConfig)
    → is_direct ns svc ≡ false
    → (mentions ns (get_or svc.env []) ≡ false) × (contains_any ns svc.start ≡ false)
unfolding is_direct
direct-split ns svc h = (ground (arith, h), ground (arith, h))

-- Let two contexts differ only in the outputs of the changed provisioner service and the values of
-- the changed keys of the store. A service outside the affected set has variables and a start command
-- that render alike in both; and where the compose file is not to be written again, the start
-- command of every service renders alike.
pub unaffected-render :
    (services : Map ServiceConfig) (provisioner_name : Text) (changed : List Text)
    (old new : TemplateContext) (name : Text) (svc : ServiceConfig)
    → DiffersIn provisioner_name changed old new
    → lookup name services ≡ some svc
    → let change = services_affected_by_change services provisioner_name changed in
      (elem name change.1 ≡ false
        → (render_env_map (get_or svc.env []) old ≡ render_env_map (get_or svc.env []) new)
          × (render_template svc.start old ≡ render_template svc.start new))
      × (change.0 ≡ false → render_template svc.start old ≡ render_template svc.start new)
unfolding services_affected_by_change
unaffected-render services provisioner_name changed old new name svc differ m =
    let ns = needles provisioner_name changed in
    let start = template-same provisioner_name changed old new differ svc.start in
    (
      λ h.
          let free = direct-split ns svc (
            elem-direct_services ns services name svc m (
              ground (
                arith,
                elem-append name (direct_services ns services)
                    (services_on (direct_paths ns services) services),
                h,
              ))) in
          (
            env_map-same provisioner_name changed old new differ (get_or svc.env []) free.0,
            start free.1,
          ),
      λ h. start (no_start ns services name svc m h),
    )
