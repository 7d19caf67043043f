-- ===== src/Database/MariaDbProvider/Writes.antt =====
-- Which MariaDB a site's database lives in, and what the MariaDB provider writes.
use Prim.Native.String.{◌++◌}
use frappe_operator.Common.{◌≡◌, String, Option, none, some, refl}
use frappe_operator.Types.{NamespacedName, Site}
use frappe_operator.Kube.{
  Err, Got, got, failed, Secret, CustomResource, create_secret, create_mariadb, create_database_cr,
  create_user_cr, create_grant_cr, update_secret, create_job, create, delete, scale_to_zero,
  update_finalizers, update_site_status, create_ingress, create_route, create_claim,
  update_restore_status, update_bench_status, workload, create_cron_job, update_cron_job,
  update_backup_status, patch_annotation, Call, M, perform,
}
use frappe_operator.Kube.Traces.{Emits, Emits-bind, Emits-pure, Emits-try, emit_rules}
use frappe_operator.Database.{in_namespace, own_key}
use frappe_operator.Database.MariaDbProvider.{
  same, create_missing, shared_instance, find_or_create_shared_mariadb, unless_exists,
  dedicated_instance, create_dedicated_mariadb, instance_of_mode, instance_of, get_mariadb_instance,
  ensure_database_cr, create_password, ensure_user_cr, ensure_grant_cr, annotate, reraise,
  ensure_database,
}

-- A creation in one namespace.
abbrev pub CreatesIn : String → Call → Type 0
CreatesIn ns (create_secret k d) = k.namespace ≡ ns
CreatesIn ns (create_mariadb k secret image size) = k.namespace ≡ ns
CreatesIn ns (create_database_cr k m d) = k.namespace ≡ ns
CreatesIn ns (create_user_cr k m u s) = k.namespace ≡ ns
CreatesIn ns (create_grant_cr k m d u) = k.namespace ≡ ns
CreatesIn ns _ = ⊥

-- The same, and never a MariaDB.
abbrev pub CreatesPartIn : String → Call → Type 0
CreatesPartIn ns (create_mariadb k secret image size) = ⊥
CreatesPartIn ns c = CreatesIn ns c

module _ (P : Call → Type 0) where
  create_missing-Emits :
      (c : Call) (g : Got CustomResource) → P c → Emits P (create_missing (perform same c) g)
  unfolding create_missing
  create_missing-Emits c (got r) p = search emit_rules
  create_missing-Emits c (failed e) p = search (emit_rules, p)

  reraise-Emits : {A : Type 0} (text : String) (g : Got A) → Emits P (reraise text g)
  reraise-Emits text (got a) = search emit_rules
  reraise-Emits text (failed e) = search emit_rules

  pub annotate-Emits :
      {A : Type 0} (text : String) (m : M A) → Emits P m → Emits P (annotate text m)
  annotate-Emits text m k = Emits-bind _ _ (Emits-try m k) (reraise-Emits text)

  module _ (site : Site) (allowed : (c : Call) → CreatesPartIn site.namespace c → P c) where
    ensure_database_cr-Emits :
        (m : NamespacedName) (d : String) → Emits P (ensure_database_cr site m d)
    unfolding ensure_database_cr
    ensure_database_cr-Emits m d = search (
      emit_rules,
      create_missing-Emits,
      allowed (create_database_cr (own_key site "-db") m d) refl,
    )

    create_password-Emits : (g : Got Secret) → Emits P (create_password site g)
    unfolding create_password
    create_password-Emits (got s) = search emit_rules
    create_password-Emits (failed e) = search emit_rules depth 12

    ensure_user_cr-Emits : (m : NamespacedName) (u : String) → Emits P (ensure_user_cr site m u)
    unfolding ensure_user_cr
    ensure_user_cr-Emits m u =
        search
          (
            emit_rules,
            create_missing-Emits,
            create_password-Emits,
            allowed (create_user_cr (own_key site "-user") m u (site.name ++ "-db-password")) refl,
          )
          depth 12

    ensure_grant_cr-Emits :
        (m : NamespacedName) (d u : String) → Emits P (ensure_grant_cr site m d u)
    unfolding ensure_grant_cr
    ensure_grant_cr-Emits m d u =
        search
          (
            emit_rules,
            create_missing-Emits,
            allowed (create_grant_cr (own_key site "-grant") m d u) refl,
          )
          depth 9

    -- The choice of the instance, and what follows it.
    ensure_database-Emits : Emits P (get_mariadb_instance site) → Emits P (ensure_database site)
    unfolding ensure_database
    ensure_database-Emits k =
        search
          (
            emit_rules, annotate-Emits, ensure_database_cr-Emits, ensure_user_cr-Emits,
            ensure_grant_cr-Emits,
          )
          depth 16

module _ (site : Site) where
  unless_exists-Emits : (P : Call → Type 0) (o : Option Err) → Emits P (unless_exists o)
  unfolding unless_exists
  unless_exists-Emits P none = search emit_rules
  unless_exists-Emits P (some e) = search emit_rules

  dedicated_instance-Emits :
      (g : Got CustomResource) → Emits (CreatesIn site.namespace) (dedicated_instance site g)
  unfolding dedicated_instance
  dedicated_instance-Emits (got r) = search emit_rules
  dedicated_instance-Emits (failed e) = search (emit_rules, unless_exists-Emits) depth 24

  shared_instance-Emits :
      (k : NamespacedName) (g : Got CustomResource)
      → Emits (CreatesIn site.namespace) (shared_instance k g)
  unfolding shared_instance
  shared_instance-Emits k (got r) = search emit_rules
  shared_instance-Emits k (failed e) = search emit_rules

  instance_of_mode-Emits : Emits (CreatesIn site.namespace) (instance_of_mode site)
  unfolding instance_of_mode find_or_create_shared_mariadb create_dedicated_mariadb
  instance_of_mode-Emits =
      search (emit_rules, dedicated_instance-Emits, shared_instance-Emits) depth 12

  instance_of-Emits :
      (r : Option NamespacedName) → Emits (CreatesIn site.namespace) (instance_of site r)
  unfolding instance_of
  instance_of-Emits none = instance_of_mode-Emits
  instance_of-Emits (some r) = search emit_rules

CreatesPartIn→CreatesIn : (ns : String) (c : Call) → CreatesPartIn ns c → CreatesIn ns c
CreatesPartIn→CreatesIn ns (create_secret k d) p = p
CreatesPartIn→CreatesIn ns (create_database_cr k m d) p = p
CreatesPartIn→CreatesIn ns (create_user_cr k m u s) p = p
CreatesPartIn→CreatesIn ns (create_grant_cr k m d u) p = p
CreatesPartIn→CreatesIn ns (create_mariadb _ _ _ _) p = elim p [ ]
CreatesPartIn→CreatesIn ns (update_secret _ _) p = elim p [ ]
CreatesPartIn→CreatesIn ns (create_job _ _) p = elim p [ ]
CreatesPartIn→CreatesIn ns (create _ _) p = elim p [ ]
CreatesPartIn→CreatesIn ns (delete _ _) p = elim p [ ]
CreatesPartIn→CreatesIn ns (scale_to_zero _ _) p = elim p [ ]
CreatesPartIn→CreatesIn ns (update_finalizers _ _) p = elim p [ ]
CreatesPartIn→CreatesIn ns (update_site_status _ _) p = elim p [ ]
CreatesPartIn→CreatesIn ns (create_ingress _ _) p = elim p [ ]
CreatesPartIn→CreatesIn ns (create_route _ _) p = elim p [ ]
CreatesPartIn→CreatesIn ns (create_claim _ _) p = elim p [ ]
CreatesPartIn→CreatesIn ns (update_restore_status _ _) p = elim p [ ]
CreatesPartIn→CreatesIn ns (update_bench_status _ _) p = elim p [ ]
CreatesPartIn→CreatesIn ns (workload _ _) p = elim p [ ]
CreatesPartIn→CreatesIn ns (create_cron_job _ _) p = elim p [ ]
CreatesPartIn→CreatesIn ns (update_cron_job _ _) p = elim p [ ]
CreatesPartIn→CreatesIn ns (update_backup_status _ _) p = elim p [ ]
CreatesPartIn→CreatesIn ns (patch_annotation _ _ _) p = elim p [ ]

-- Whatever the cluster answers, all that the MariaDB provider writes for a site are creations in the
-- site's own namespace.
pub ensure_database-CreatesIn :
    (site : Site) → Emits (CreatesIn site.namespace) (ensure_database site)
unfolding get_mariadb_instance
ensure_database-CreatesIn site =
    ensure_database-Emits (CreatesIn site.namespace) site (CreatesPartIn→CreatesIn site.namespace)
      (instance_of-Emits site site.spec.db_config.mariadb_ref)

-- A site with a `mariadbRef` never gets a MariaDB instance of its own, whatever its mode: what is
-- written are the Secret, the Database, the User and the Grant in the site's namespace.
pub ensure_database-CreatesPartIn :
    (site : Site) (r : NamespacedName)
    → site.spec.db_config.mariadb_ref ≡ some r
    → Emits (CreatesPartIn site.namespace) (ensure_database site)
unfolding get_mariadb_instance instance_of
ensure_database-CreatesPartIn site r e =
    ensure_database-Emits (CreatesPartIn site.namespace) site (λ c p. p)
      (rw e (Emits-pure (in_namespace site r)))
