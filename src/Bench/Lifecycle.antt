-- ===== src/Bench/Lifecycle.antt =====
-- The operator's configuration of a bench, and its init job: `isGitEnabled`, `mergeFPMRepositories`
-- and `ensureBenchInitialized` of controllers/frappebench_controller.go.
pub mod Writes
pub mod Waiting
use Prim.Native.String.{◌++◌}
use mathlib.Core.List.{◌++◌ as ◌+++◌}
use frappe_operator.Common.{
  String, Bool, true, false, Option, none, some, List, [], ◌∷◌, str_eq, deref_or, not, ltb,
  if◌then◌else◌,
}
use frappe_operator.Pods.{value}
use frappe_operator.Types.{NamespacedName, GitConfig, FpmConfig, FpmRepository, BenchSpec, Bench}
use frappe_operator.Kube.{
  Got, got, failed, Job, JobSpec, create_job, Api, M, pure, raise, ◌>>=◌, ◌>>◌, ask, is_not_found,
  lookup,
}
use frappe_operator.Images.{bench_image}
use frappe_operator.Resources.{create_owned}
use frappe_operator.Bench.{Setup, bench_key}

-- The data of the ConfigMap; after an error it is empty.
abbrev pub config_data : Got (List (String × String)) → List (String × String)
config_data (got m) = m
config_data (failed e) = []

abbrev git_of : Option GitConfig → Option Bool
git_of none = none
git_of (some c) = c.enabled

abbrev is_text_true : Option String → Bool
is_text_true none = false
is_text_true (some t) = str_eq t "true"

unfoldable pub is_git_enabled : List (String × String) → BenchSpec → Bool
is_git_enabled config s = deref_or (git_of s.git_config) (is_text_true (lookup "gitEnabled" config))

abbrev repositories_in : (String → Option (List FpmRepository)) → Option String → List FpmRepository
repositories_in read none = []
repositories_in read (some text) = deref_or (read text) []

abbrev bench_repositories : Option FpmConfig → List FpmRepository
bench_repositories none = []
bench_repositories (some c) = c.repositories

unfoldable pub merge_fpm_repositories :
    Setup → List (String × String) → BenchSpec → List FpmRepository
merge_fpm_repositories setup config s =
    repositories_in setup.read_repositories (lookup "fpmRepositories" config)
    +++ bench_repositories s.fpm_config

abbrev skip_build : Bench → String
skip_build bench =
    if str_eq (deref_or (lookup "frappe.tech/skip-bench-build" bench.annotations) "") "1"
    then "1"
    else "0"

abbrev pub init_key : Bench → NamespacedName
init_key bench = bench_key bench "-init"

pub bench_init_spec : Bench → String → JobSpec
bench_init_spec bench image = record {
  container = "bench-init";
  image = image;
  args = "bench_init.sh" ∷ [];
  claim = bench.name ++ "-sites";
  secret = none;
  env =
      record { name = "SKIP_BENCH_BUILD"; source = value (skip_build bench) }
      ∷ record { name = "USER"; source = value "frappe" }
      ∷ [];
}

init_by : Bench → Got Job → M Bool
unfolding bench_init_spec
init_by bench (got job) = pure (ltb 0 job.succeeded)
init_by bench (failed e) =
    if not (is_not_found e)
    then raise e
    else bench_image bench >>= λ image.
        create_owned (init_key bench) (create_job (init_key bench) (bench_init_spec bench image))
        >> pure false

unfoldable pub ensure_bench_initialized : Bench → M Bool
unfolding init_by
ensure_bench_initialized bench =
    ask (λ (api : Api) h. api.get_job h (init_key bench)) >>= init_by bench
