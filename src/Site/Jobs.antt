-- ===== src/Site/Jobs.antt =====
-- What the creation of a site's job writes.
use frappe_operator.Common.{String, Option, none, some}
use frappe_operator.Types.{Site, Bench}
use frappe_operator.Kube.{Err, JobSpec, Call, create_job}
use frappe_operator.Kube.Traces.{Emits, emit_rules}
use frappe_operator.Database.{own_key}
use frappe_operator.Images.{bench_image}
use frappe_operator.Site.{built, must_build, create_site_job}

module _ {P : Call → Type 0} (f : Err → Err) (site : Site) (bench : Bench) where
  built-Emits : (o : Option Err) → Emits P (built o)
  unfolding built
  built-Emits none = search emit_rules
  built-Emits (some e) = search emit_rules

  pub create_site_job-Emits :
      (suffix container script secret : String)
      → ((spec : JobSpec) → P (create_job (own_key site suffix) spec))
      → Emits P (create_site_job f site bench suffix container script secret)
  unfolding create_site_job must_build bench_image
  create_site_job-Emits suffix container script secret p = search (emit_rules, built-Emits) depth 12
