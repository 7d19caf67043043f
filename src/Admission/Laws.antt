-- ===== src/Admission/Laws.antt =====
-- Which resources the validation functions of the webhooks accept.
use frappe_operator.Common.{
  ◌≡◌, ◌≢◌, ◌↔◌, ◌⊎◌, Option, none, some, [], arith, eq_iff, str_eq_other, refl,
}
use frappe_operator.Common.Int.{pos, ◌≤ℤ◌}
use frappe_operator.Types.{NamespacedName, DatabaseConfig, ComponentReplicas, SiteSpec, BenchSpec}
use frappe_operator.Admission.{
  check_mariadb_ref, check_mode, check_bench_ref, check_replicas, validate_site, validate_bench,
}

-- A reference that is there and names something.
abbrev pub IsNamed : Option NamespacedName → Type 0
IsNamed none = ⊥
IsNamed (some r) = r.name ≢ ""

abbrev pub IsKnownMode : DatabaseConfig → Type 0
IsKnownMode c =
    (c.mode ≡ "") ⊎ (c.mode ≡ "shared") ⊎ ((c.mode ≡ "dedicated") × IsNamed c.mariadb_ref)

check_mariadb_ref_iff : (r : Option NamespacedName) → (check_mariadb_ref r ≡ none) ↔ IsNamed r
unfolding check_mariadb_ref
check_mariadb_ref_iff none = (λ h. cc, λ h. absurd h)
check_mariadb_ref_iff (some r) =
    (ground (arith, eq_iff r.name ""), ground (arith, eq_iff r.name ""))

module _ (c : DatabaseConfig) where
  check_mode_iff : (check_mode c ≡ none) ↔ IsKnownMode c
  unfolding check_mode
  check_mode_iff = (
    ground (
      arith,
      eq_iff c.mode "",
      eq_iff c.mode "shared",
      eq_iff c.mode "dedicated",
      str_eq_other c.mode "" "dedicated" refl,
      str_eq_other c.mode "shared" "dedicated" refl,
      check_mariadb_ref_iff c.mariadb_ref,
    ),
    ground (
      arith,
      eq_iff c.mode "",
      eq_iff c.mode "shared",
      eq_iff c.mode "dedicated",
      str_eq_other c.mode "" "dedicated" refl,
      str_eq_other c.mode "shared" "dedicated" refl,
      check_mariadb_ref_iff c.mariadb_ref,
    ),
  )

check_bench_ref_iff :
    (r : Option NamespacedName) (c : DatabaseConfig)
    → (check_bench_ref r c ≡ none) ↔ (IsNamed r × IsKnownMode c)
unfolding check_bench_ref
check_bench_ref_iff none c = (λ h. cc, λ h. absurd h.0)
check_bench_ref_iff (some r) c = (
  ground (arith, eq_iff r.name "", check_mode_iff c),
  ground (arith, eq_iff r.name "", check_mode_iff c),
)

-- `validateSite` returns nil exactly for a site that has a site name, whose bench reference names a
-- bench, and whose mode is empty, shared, or dedicated with a reference that names a MariaDB.
pub validate_site_iff :
    (s : SiteSpec)
    → (validate_site s ≡ none)
      ↔ ((s.site_name ≢ "") × IsNamed s.bench_ref × IsKnownMode s.db_config)
unfolding validate_site
validate_site_iff s = (
  ground (arith, eq_iff s.site_name "", check_bench_ref_iff s.bench_ref s.db_config),
  ground (arith, eq_iff s.site_name "", check_bench_ref_iff s.bench_ref s.db_config),
)

abbrev pub HasReplicas : Option ComponentReplicas → Type 0
HasReplicas none = Unit
HasReplicas (some r) = (pos 0 ≤ℤ r.gunicorn) × (pos 0 ≤ℤ r.socketio)

check_replicas_iff : (r : Option ComponentReplicas) → (check_replicas r ≡ none) ↔ HasReplicas r
unfolding check_replicas
check_replicas_iff none = (λ h. tt, λ h. refl)
check_replicas_iff (some r) = (ground arith, ground arith)

-- `validateBench` returns nil exactly for a bench with a version and some app, listed or in `appsJSON`,
-- whose replica counts of gunicorn and socketio, if given, are not negative.
pub validate_bench_iff :
    (s : BenchSpec)
    → (validate_bench s ≡ none) ↔ (
        (s.frappe_version ≢ "")
        × ((s.apps ≢ []) ⊎ (s.apps_json ≢ ""))
        × HasReplicas s.component_replicas)
unfolding validate_bench
validate_bench_iff s = (
  ground (
    arith,
    eq_iff s.frappe_version "",
    eq_iff s.apps_json "",
    check_replicas_iff s.component_replicas,
  ),
  ground (
    arith,
    eq_iff s.frappe_version "",
    eq_iff s.apps_json "",
    check_replicas_iff s.component_replicas,
  ),
)
