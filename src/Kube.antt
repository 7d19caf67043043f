-- ===== src/Kube.antt =====
-- Calls of the Kubernetes API. The client is no code of the repository: it is the parameter `Api`,
-- which answers each call from the calls made before it. A handler gets the client and the history
-- of its writes, the latest first, and returns a result and the longer history.
mod Objects
pub mod Traces
pub mod Reads
pub mod SiteCalls
pub mod Retry
pub mod Ensures
pub mod Runs
use Prim.Native.String.{◌++◌}
use frappe_operator.Common.{
  ℕ, String, Bool, true, false, Option, none, some, List, [], ◌∷◌, str_eq, if◌then◌else◌,
}
use frappe_operator.Breaker.{Refusal}
use frappe_operator.Types.{
  NamespacedName, Site, SiteStatus, Bench, BenchStatus, Backup, BackupStatus, Restore,
  RestoreStatus,
}
use frappe_operator.Pods.{EnvVar, Deployed, Workload}
pub use Objects.*

pub data Reason : Type 0 where
  not_found already_exists conflict other : Reason

-- `status_error` is an error of the client with its text, `wrap` is `fmt.Errorf("…: %w", err)`.
pub data Err : Type 0 where
  plain : String → Err
  status_error : Reason → String → Err
  wrap : String → Err → Err
  breaker : Refusal → Err

-- `errors.IsNotFound` and `errors.IsAlreadyExists` look through wrapped errors.
abbrev pub is_not_found : Err → Bool
is_not_found (status_error not_found t) = true
is_not_found (wrap t e) = is_not_found e
is_not_found _ = false

abbrev pub is_already_exists : Err → Bool
is_already_exists (status_error already_exists t) = true
is_already_exists (wrap t e) = is_already_exists e
is_already_exists _ = false

abbrev pub is_conflict : Err → Bool
is_conflict (status_error conflict t) = true
is_conflict (wrap t e) = is_conflict e
is_conflict _ = false

-- `err.Error()`
unfoldable pub message : Err → String
message (plain t) = t
message (status_error r t) = t
message (wrap t e) = t ++ message e
message (breaker Refusal.circuit_open) = "circuit breaker is open"
message (breaker Refusal.too_many_requests) = "too many requests in half-open state"

-- What a read returns.
pub data Got (A : Type 0) : Type 0 where
  got : A → Got A
  failed : Err → Got A

-- How a handler ends; `panic` is a nil dereference or a call of `panic`.
pub data Result (A : Type 0) : Type 0 where
  ok : A → Result A
  err : Err → Result A
  panic : Result A

pub data Kind : Type 0 where
  secret_kind job_kind cron_job_kind claim_kind deployment_kind stateful_set_kind : Kind
  mariadb_kind database_kind user_kind grant_kind : Kind
  ingress_kind route_kind scaled_object_kind service_kind : Kind

-- The writes. A MariaDB is created with the name of its root secret, its image and its size; a
-- Database with its MariaDB and its name; a User with its MariaDB, its name and its password secret;
-- a Grant with its MariaDB, its database and its user.
pub data Call : Type 0 where
  create_secret : NamespacedName → List (String × String) → Call
  update_secret : NamespacedName → List (String × String) → Call
  create_job : NamespacedName → JobSpec → Call
  create_mariadb : NamespacedName → String → String → String → Call
  create_database_cr : NamespacedName → NamespacedName → String → Call
  create_user_cr : NamespacedName → NamespacedName → String → String → Call
  create_grant_cr : NamespacedName → NamespacedName → String → String → Call
  create_ingress : NamespacedName → IngressSpec → Call
  create_route : NamespacedName → RouteSpec → Call
  create : Kind → NamespacedName → Call
  delete : Kind → NamespacedName → Call
  scale_to_zero : Kind → NamespacedName → Call
  update_finalizers : NamespacedName → List String → Call
  update_site_status : NamespacedName → SiteStatus → Call
  patch_annotation : NamespacedName → String → String → Call
  create_claim : NamespacedName → ClaimSpec → Call
  create_cron_job : NamespacedName → CronJobSpec → Call
  update_cron_job : NamespacedName → CronJobSpec → Call
  update_backup_status : NamespacedName → BackupStatus → Call
  update_restore_status : NamespacedName → RestoreStatus → Call
  update_bench_status : NamespacedName → BenchStatus → Call
  workload : NamespacedName → Workload → Call

abbrev pub History : Type 0
History = List Call

-- `last_pod` is the last pod in the list of a job's pods, if that is not empty and the call succeeds.
-- `same_cron_job` tells whether the whole spec of a CronJob is that of the one given; `sites_in` lists
-- a namespace; `now` is the clock.
pub record Api : Type 0 where
  pub get_secret : History → NamespacedName → Got Secret
  pub get_job : History → NamespacedName → Got Job
  pub get_bench : History → NamespacedName → Got Bench
  pub get_site : History → NamespacedName → Got Site
  pub last_pod : History → NamespacedName → Option Pod
  pub get_mariadb : History → NamespacedName → Got MariaDb
  pub get_config_map : History → NamespacedName → Got (List (String × String))
  pub get_custom : History → Kind → NamespacedName → Got CustomResource
  pub get_storage_class : History → String → Got StorageClass
  pub list_storage_classes : History → Got (List StorageClass)
  pub get_backup : History → NamespacedName → Got Backup
  pub get_restore : History → NamespacedName → Got Restore
  pub get_deployed : History → Kind → NamespacedName → Got Deployed
  pub list_scaled_objects : History → Got (Unit {0})
  pub namespace_annotations : History → String → Got (List (String × String))
  pub same_cron_job : History → NamespacedName → CronJobSpec → Got Bool
  pub sites_in : History → String → Got (List Site)
  pub now : History → ℕ
  pub exists : History → Kind → NamespacedName → Got (Unit {0})
  pub random_password : History → ℕ → String
  pub write : History → Call → Option Err
  pub set_controller_reference : NamespacedName → Option Err

abbrev pub M : Type 0 → Type 0
M A = Api → History → Result A × History

pub pure : {A : Type 0} → A → M A
pure a api h = (ok a, h)

pub raise : {A : Type 0} → Err → M A
raise e api h = (err e, h)

pub nil_dereference : {A : Type 0} → M A
nil_dereference api h = (panic, h)

-- A read, as the pair of its value and its error; likewise a value that is drawn, as a password is.
pub ask : {A : Type 0} → (Api → History → A) → M A
ask f api h = (ok (f api h), h)

-- A write, with its error.
pub attempt : Call → M (Option Err)
attempt c api h = (ok (api.write h c), c ∷ h)

-- `if err != nil { return f(err) }`
pub check : (Err → Err) → Option Err → M (Unit {0})
check f none api h = (ok tt, h)
check f (some e) api h = (err (f e), h)

pub set_owner : NamespacedName → M (Unit {0})
unfolding check
set_owner k api h = check (λ e. e) (api.set_controller_reference k) api h

-- The result of a step that may return an error, as a value.
abbrev pub try_result : {A : Type 0} → Result A × History → Result (Got A) × History
try_result (ok a, h) = (ok (got a), h)
try_result (err e, h) = (ok (failed e), h)
try_result (panic, h) = (panic, h)

pub try : {A : Type 0} → M A → M (Got A)
try m api h = try_result (m api h)

abbrev pub continue : {A B : Type 0} → Result A × History → (A → M B) → Api → Result B × History
continue (ok a, h) f api = f a api h
continue (err e, h) f api = (err e, h)
continue (panic, h) f api = (panic, h)

infixl 5 ◌>>=◌ ◌>>◌
-- Opening this opens the other actions too.
unfoldable pub ◌>>=◌ : {A B : Type 0} → M A → (A → M B) → M B
unfolding pure raise nil_dereference ask attempt check set_owner try
◌>>=◌ m f api h = continue (m api h) f api

abbrev pub ◌>>◌ : {B : Type 0} → M (Unit {0}) → M B → M B
m >> k = m >>= λ _. k

abbrev pub perform : (Err → Err) → Call → M (Unit {0})
perform f c = attempt c >>= check f

-- The value of a key of a map.
unfoldable pub lookup : String → List (String × String) → Option String
lookup k [] = none
lookup k ((j, v) ∷ m) = if str_eq j k then some v else lookup k m
