-- ===== src/Database/Config.antt =====
-- What `resolveDBConfig` and `NewProvider` choose together.
use std.Logic.{↔_trans}
use frappe_operator.Common.{
  ◌≡◌, refl, ◌↔◌, ◌⊎◌, String, true, Option, none, some, str_eq, eq_iff, if◌then◌else◌, or_else,
  is_some, str_ne, arith,
}
use frappe_operator.Types.{NamespacedName, DatabaseConfig, SiteSpec, BenchSpec}
use frappe_operator.Kube.{got}
use frappe_operator.Database.{
  merged, resolve_db_config, external, provider_named, provider_type, new_provider,
}

-- What makes the provider of a site that names none external.
abbrev pub IsExternalFor : Option NamespacedName → Option DatabaseConfig → Type 0
IsExternalFor secret none = ⊥
IsExternalFor secret (some b) =
    (b.provider ≡ "external")
    ⊎ ((b.provider ≡ "") × (is_some (or_else secret b.connection_secret_ref) ≡ true))

provider_named-external : (t : String) → (provider_named t ≡ got external) ↔ (t ≡ "external")
unfolding provider_named
provider_named-external t = (λ h. ground (arith, eq_iff t "external"), λ h. rw h refl)

type_of-external :
    (p : String) (r : Option NamespacedName)
    → ((if str_eq p "" then if is_some r then "external" else "mariadb" else p) ≡ "external")
      ↔ ((p ≡ "external") ⊎ ((p ≡ "") × (is_some r ≡ true)))
type_of-external p none = ground (
  arith,
  eq_iff p "",
  eq_iff p "external",
  str_ne "mariadb" "external" refl,
  str_ne "" "external" refl,
)
type_of-external p (some r) =
    ground (arith, eq_iff p "", eq_iff p "external", str_ne "" "external" refl)

external_for :
    (c : DatabaseConfig) (b : Option DatabaseConfig)
    → c.provider ≡ ""
    → (new_provider (merged c b) ≡ got external) ↔ IsExternalFor c.connection_secret_ref b
unfolding merged new_provider
external_for c none e = rw e (
  (λ h. str_ne "mariadb" "external" refl ((provider_named-external "mariadb").0 h)),
  λ x. absurd x,
)
external_for c (some b) e =
    ↔_trans (provider_named-external (provider_type (merged c (some b))))
      (rw e (type_of-external b.provider (or_else c.connection_secret_ref b.connection_secret_ref)))

-- The provider of a site that names none is the external one exactly if its bench has a database
-- configuration that names it, or that names no provider while there is a connection secret. With
-- no database configuration of the bench, a connection secret of the site is not enough.
pub new_provider-external_iff :
    (site : SiteSpec) (bench : BenchSpec)
    → site.db_config.provider ≡ ""
    → (new_provider (resolve_db_config site bench) ≡ got external)
      ↔ IsExternalFor site.db_config.connection_secret_ref bench.db_config
unfolding resolve_db_config
new_provider-external_iff site bench e = external_for site.db_config bench.db_config e
