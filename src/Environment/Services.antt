-- ===== src/Environment/Services.antt =====
-- The enabled services of an entry of src/domain/environment.go as a set.
use previewctl.Base.{
  ℕ, ◌+◌, ◌≤◌, true, false, ◌&&◌, ◌||◌, not, List, [], ◌∷◌, ◌≡◌, arith, Text, ◌==◌, eq_iff,
  if◌then◌else◌, leb, elem, count, elem-count, count-append, not-elem-count, elem-append,
}
use previewctl.Environment.{
  EnvironmentEntry, is_service_enabled, enable_service, disable_service, remove_first,
}

-- No service is listed twice.
abbrev pub IsSetOfServices : EnvironmentEntry → Type 0
IsSetOfServices e = (j : Text) → count j e.enabled_services ≤ 1

count-remove_first :
    (name j : Text) (ss : List Text)
    → elem name ss ≡ true
    → count j (remove_first name ss) + (if name == j then 1 else 0) ≡ count j ss
unfolding remove_first elem count
count-remove_first name j [] h = ground arith
count-remove_first name j (s ∷ ss) h =
    ground (arith, eq_iff s name, eq_iff name j, eq_iff s j, count-remove_first name j ss)

elem_of_count : (j : Text) (ss : List Text) → elem j ss ≡ leb 1 (count j ss)
elem_of_count j ss = ground (arith, elem-count j ss, not-elem-count j ss)

-- `EnableService` adds the service and nothing else, keeps every service listed at most once, and
-- changes nothing if the service is enabled.
pub enable_service_lem :
    (now : ℕ) (name : Text) (e : EnvironmentEntry)
    → IsSetOfServices e
    → IsSetOfServices (enable_service now name e)
      × ((j : Text)
          → is_service_enabled j (enable_service now name e)
            ≡ ((name == j) || is_service_enabled j e))
      × (is_service_enabled name e ≡ true → enable_service now name e ≡ e)
unfolding enable_service is_service_enabled count elem
enable_service_lem now name e h = (
  λ j. ground (
    arith,
    h j,
    eq_iff name j,
    count-append j e.enabled_services (name ∷ []),
    not-elem-count name e.enabled_services,
  ),
  λ j. ground (arith, eq_iff name j, elem-append j e.enabled_services (name ∷ [])),
  λ m. ground arith,
)

-- `DisableService` removes the service and nothing else, keeps every service listed at most once,
-- and changes nothing if the service is not enabled.
pub disable_service_lem :
    (now : ℕ) (name : Text) (e : EnvironmentEntry)
    → IsSetOfServices e
    → IsSetOfServices (disable_service now name e)
      × ((j : Text)
          → is_service_enabled j (disable_service now name e)
            ≡ (not (name == j) && is_service_enabled j e))
      × (is_service_enabled name e ≡ false → disable_service now name e ≡ e)
unfolding disable_service is_service_enabled
disable_service_lem now name e h = (
  λ j. ground (arith, h j, count-remove_first name j e.enabled_services),
  λ j. ground (
    arith,
    h j,
    eq_iff name j,
    count-remove_first name j e.enabled_services,
    elem_of_count j e.enabled_services,
    elem_of_count j (remove_first name e.enabled_services),
  ),
  λ m. ground arith,
)
