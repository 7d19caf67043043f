-- ===== src/Backup/Reconcile.antt =====
-- `Reconcile` of controllers/sitebackup_controller.go.
pub mod Calls
pub mod Writes
mod Examples
use Prim.Native.String.{◌++◌}
use mathlib.Core.List.{◌++◌ as ◌+++◌}
use frappe_operator.Common.{
  String, Bool, true, false, Option, none, some, List, [], ◌∷◌, str_eq, if◌then◌else◌,
}
use frappe_operator.Types.{NamespacedName, Site, Bench, Backup}
use frappe_operator.Kube.{
  Got, got, failed, update_finalizers, Api, M, pure, raise, ◌>>=◌, ◌>>◌, ask, perform, is_not_found,
}
use frappe_operator.Backup.{
  backup_key, update_site_backup_status, reconcile_one_time_backup, reconcile_scheduled_backup,
  handle_finalizer,
}

abbrev pub backup_finalizer : String
backup_finalizer = "vyogo.tech/finalizer"

pub has_backup_finalizer : List String → Bool
has_backup_finalizer [] = false
has_backup_finalizer (f ∷ fs) =
    let more = has_backup_finalizer fs in if str_eq f backup_finalizer then true else more

pub drop_backup_finalizer : List String → List String
drop_backup_finalizer [] = []
drop_backup_finalizer (f ∷ fs) =
    let rest = drop_backup_finalizer fs in if str_eq f backup_finalizer then rest else f ∷ rest

-- The bench of the first site with the name.
pub bench_ref_of : String → List Site → Option NamespacedName
bench_ref_of name [] = none
bench_ref_of name (site ∷ sites) =
    if str_eq site.spec.site_name name then site.spec.bench_ref else bench_ref_of name sites

for_bench : Backup → Got Bench → M (Unit {0})
for_bench b (failed e) = raise e
for_bench b (got bench) =
    if str_eq b.spec.schedule ""
    then reconcile_one_time_backup b bench
    else reconcile_scheduled_backup b bench

for_ref : Backup → Option NamespacedName → M (Unit {0})
unfolding for_bench
for_ref b none =
    update_site_backup_status b "Failed" ("no FrappeSite found for site " ++ b.spec.site) ""
for_ref b (some r) = ask (λ (api : Api) h. api.get_bench h r) >>= for_bench b

for_sites : Backup → Got (List Site) → M (Unit {0})
unfolding for_ref bench_ref_of
for_sites b (failed e) = raise e
for_sites b (got sites) = for_ref b (bench_ref_of b.spec.site sites)

ensure_finalizer : Backup → M (Unit {0})
unfolding has_backup_finalizer
ensure_finalizer b =
    if has_backup_finalizer b.finalizers
    then pure tt
    else perform (λ e. e)
        (update_finalizers (backup_key b) (b.finalizers +++ (backup_finalizer ∷ [])))

release : Backup → M (Unit {0})
unfolding has_backup_finalizer drop_backup_finalizer
release b =
    if has_backup_finalizer b.finalizers
    then (handle_finalizer b
        >> perform (λ e. e) (update_finalizers (backup_key b) (drop_backup_finalizer b.finalizers)))
    else pure tt

for_backup : NamespacedName → Got Backup → M (Unit {0})
unfolding release ensure_finalizer for_sites
for_backup req (failed e) = if is_not_found e then pure tt else raise e
for_backup req (got b) =
    if b.deleting
    then release b
    else (ensure_finalizer b
        >> (ask (λ (api : Api) h. api.sites_in h req.namespace) >>= for_sites b))

pub reconcile_backup : NamespacedName → M (Unit {0})
unfolding for_backup
reconcile_backup req = ask (λ (api : Api) h. api.get_backup h req) >>= for_backup req
