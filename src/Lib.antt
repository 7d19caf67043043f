-- ===== src/Lib.antt =====
-- frappe-operator, a Kubernetes operator for Frappe benches and sites, as functions with theorems.
--
-- A bench (`FrappeBench`) is a Frappe installation, a site (`FrappeSite`) runs on a bench and has a
-- database and a domain. Validation functions are there for admission
-- webhooks, which nothing registers; a reconciler brings the cluster to what a
-- site asks for: it resolves the domain and the database configuration, chooses a database provider,
-- waits for the database, runs a job that initialises the site, and on deletion a job that drops it.
-- Another one provides a bench with its claim, an init job, and then its services, deployments and
-- workers, and on deletion waits for the sites to go before it stops them. A third and a fourth run
-- backups and restores as jobs. A reconciler is called again after a delay when it has to wait.
--
-- The files, and the code that they model:
-- - Types: the resources of api/v1alpha1, with the fields that the modelled code uses. A Go pointer
--   is an option.
-- - Breaker: pkg/circuitbreaker/circuitbreaker.go. `before_request` and `after_request` are the two
--   critical sections of `Execute`; the clock is an argument. Invariant has interleavings of
--   requests as a step relation, Opening and Probing runs of requests.
-- - Backoff: pkg/backoff/backoff.go. Durations are nanoseconds; the rounding of a float is written
--   out, and what Go leaves open for one beyond int64 is a parameter, with the behaviour of amd64 as an instance.
-- - Admission: `validateSite` and `validateBench` of api/v1alpha1, as functions of one resource.
-- - DbName: `generateDBName` and its helpers in controllers/database/mariadb_provider.go, with FNV-1a
--   on 32 bits written out modulo 2 ^ 32. Texts are those whose characters are bytes (ASCII).
-- - Domain: controllers/domain_detector.go and `resolveDomain` of controllers/site_lifecycle.go.
-- - Kube: the Kubernetes API. The client is a parameter: it answers each call from the writes made
--   before it. A handler is a function of the client and of the history of writes that returns a
--   result (a value, an error or a panic) and the longer history. Kube/Traces has the rules on what
--   a handler writes and on whether it fails.
--   Kube/Ensures adds what it returns, Kube/Runs is about a run that ends with a value, and
--   Kube/Retry about an update that is tried again after a conflict.
-- - Pods and Resources: the parts of manifests, and the builders of pkg/resources that set them.
-- - Images: pkg/constants/images.go and the three `getBenchImage` functions of controllers.
-- - Database: `resolveDBConfig` and `getMariaDBRootCredentials` of controllers/site_lifecycle.go and
--   `NewProvider` of controllers/database/provider.go; its children are the providers of
--   controllers/database: MariaDbProvider, External, SqliteProvider, PostgresProvider, a stub, and
--   Guarded, the wrapper with a breaker.
-- - Storage: controllers/frappebench_storage.go with the claim of pkg/resources/pvc_builder.go. Spec
--   says which class, mode and claim are wanted, Modes and Choice are about the access mode and the
--   storage class, Writes and Provision about what is written.
-- - Backup: controllers/sitebackup_controller.go; its child Reconcile has `Reconcile` itself.
-- - Requeue: `getRequeueAttempt` and `patchRequeueAttempt` of controllers/site_lifecycle.go, with
--   `strconv.Itoa` and `strconv.Atoi`.
-- - Site: `deleteSite` of controllers/frappesite_jobs.go; its children are Secrets
--   (`ensureAdminPassword` and `ensureInitSecrets` of controllers/site_lifecycle.go), Init
--   (`ensureSiteInitialized` of controllers/frappesite_jobs.go), Access
--   (controllers/frappesite_ingress.go), and Status and Reconcile
--   (controllers/frappesite_controller.go), which composes all of the above.
-- - Workers: the autoscaling helpers of controllers/frappebench_helpers.go.
-- - Security: controllers/security_context.go and the defaults of controllers/utils.go. PodConfig:
--   controllers/pod_config.go; as it changes the bench in place, the model returns the bench, too.
-- - Bench: what the components of a bench have in common; its children are Components
--   (controllers/frappebench_deployments.go), Redis (controllers/frappebench_redis.go), Workers
--   (controllers/frappebench_workers.go), and Lifecycle, Status, Finalizer and Reconcile
--   (controllers/frappebench_controller.go). Calls says what a bench may write; the children named
--   Writes show it of each step.
-- - Restore: controllers/siterestore_controller.go, with the text of its script in Script.
-- - ComponentDefaults: the presets of resources in api/v1alpha1/shared_types.go. Fpm:
--   controllers/fpm_manager.go, with the scripts in Scripts. No reconciler uses either.
-- - Common holds the shared helpers, Fixtures and the Examples files the tests.
--
-- The loops of the modelled code go over lists and texts, and are structural recursions. The digits
-- of a number are written with fuel, one more than the number, which is enough as each step divides
-- by ten. The retries of a status update are as many as the retry policy allows, a parameter. Go's
-- `int` is ℤ where the code lets it be negative, and ℕ where it cannot be; only the conversion of a
-- delay and the hash can overflow, and there the bounds are written out.
--
-- Not modelled: logging, events, conditions and metrics; the labels and the constant fields of jobs,
-- claims and ingresses; the controllers that only log; start-up and generated code.
mod Common
pub mod Pods
pub mod Types
mod Fixtures
pub mod Breaker
pub mod Backoff
pub mod Admission
pub mod DbName
pub mod Domain
pub mod Kube
pub mod Images
pub mod Resources
pub mod Security
pub mod PodConfig
pub mod Storage
pub mod Bench
pub mod Backup
pub mod Restore
pub mod Database
pub mod Requeue
pub mod Workers
pub mod Site
pub mod ComponentDefaults
pub mod Fpm
