-- ===== src/Storage.antt =====
-- The volume of a bench: controllers/frappebench_storage.go, with the claim that
-- pkg/resources/pvc_builder.go builds for it, less its labels.
pub mod Spec
pub mod Modes
pub mod Choice
pub mod Writes
pub mod Provision
mod Examples
use Prim.Native.String.{◌++◌}
use Prim.Native.Char.{code}
use mathlib.Core.List.{◌++◌ as ◌+++◌}
use frappe_operator.Common.{
  ℕ, ◌+◌, String, Bool, true, false, not, ◌&&◌, ◌||◌, Option, none, some, List, [], ◌∷◌, str_eq,
  leb, ◌==◌, if◌then◌else◌,
}
use frappe_operator.Types.{NamespacedName, Bench}
use frappe_operator.Kube.{
  Err, plain, wrap, Got, got, failed, StorageClass, ClaimSpec, patch_annotation, create_claim,
  claim_kind, Api, M, pure, raise, nil_dereference, ◌>>=◌, ◌>>◌, ask, perform, set_owner,
  is_not_found, lookup,
}

abbrev pub read_write_once : String
read_write_once = "ReadWriteOnce"

abbrev pub read_write_many : String
read_write_many = "ReadWriteMany"

-- `unicode.ToLower` up to letters outside ASCII, which stay outside: only the Kelvin sign and the
-- capital I with a dot have a lower case in ASCII.
pub to_lower : ℕ → ℕ
to_lower c =
    if leb b'A' c && leb c b'Z'
    then c + 32
    else if c == 8490
    then b'k'
    else if c == 304
    then b'i'
    else c

-- Whether the lower case of a text begins with `p`, and whether it contains `p`.
pub lower_begins : String → String → Bool
unfolding to_lower
lower_begins String.[] s = true
lower_begins (String.◌∷◌ d p) String.[] = false
lower_begins (String.◌∷◌ d p) (String.◌∷◌ c s) = to_lower (code c) == code d && lower_begins p s

pub lower_contains : String → String → Bool
unfolding lower_begins
lower_contains p String.[] = lower_begins p ""
lower_contains p (String.◌∷◌ c s) = lower_begins p (String.◌∷◌ c s) || lower_contains p s

pub contains_any : List String → String → Bool
unfolding lower_contains
contains_any [] s = false
contains_any (p ∷ ps) s = lower_contains p s || contains_any ps s

abbrev pub rwx_providers : List String
rwx_providers = "nfs" ∷ "ceph" ∷ "gluster" ∷ "netapp" ∷ "azurefile" ∷ "filestore" ∷ "portworx" ∷ []

pub storage_class_supports_rwx : StorageClass → Bool
unfolding contains_any
storage_class_supports_rwx sc = contains_any rwx_providers sc.provisioner

pub is_true : Option String → Bool
is_true none = false
is_true (some v) = str_eq v "true"

pub is_default_storage_class : StorageClass → Bool
unfolding is_true
is_default_storage_class sc =
    is_true (lookup "storageclass.kubernetes.io/is-default-class" sc.annotations)
    || is_true (lookup "storageclass.beta.kubernetes.io/is-default-class" sc.annotations)

-- The loop over the classes, with what follows it.
pub default_or : StorageClass → List StorageClass → StorageClass
unfolding is_default_storage_class
default_or other [] = other
default_or other (sc ∷ rest) = if is_default_storage_class sc then sc else default_or other rest

specified_class : String → Got StorageClass → M StorageClass
specified_class name (got sc) =
    if str_eq sc.provisioner ""
    then raise (plain ("storage class '" ++ (name ++ "' has no provisioner configured")))
    else pure sc
specified_class name (failed e) =
    if is_not_found e
    then raise (
        plain (
          "specified storage class '"
          ++ (name
              ++ "' not found in cluster. Available storage classes can be listed with 'kubectl get storageclass'")))
    else raise (wrap ("failed to get storage class '" ++ (name ++ "': ")) e)

listed_class : Got (List StorageClass) → M StorageClass
unfolding default_or
listed_class (failed e) = raise (wrap "failed to list storage classes: " e)
listed_class (got []) = raise (
    plain
      "no storage classes available in cluster. Please create a storage class or specify storageClassName in bench spec")
listed_class (got (sc ∷ rest)) = pure (default_or sc (sc ∷ rest))

pub choose_storage_class : Bench → M StorageClass
unfolding specified_class listed_class
choose_storage_class bench =
    if str_eq bench.spec.storage_class_name ""
    then (ask (λ (api : Api) h. api.list_storage_classes h) >>= listed_class)
    else (ask (λ (api : Api) h. api.get_storage_class h bench.spec.storage_class_name)
        >>= specified_class bench.spec.storage_class_name)

abbrev pub bench_key : Bench → NamespacedName
bench_key bench = record { name = bench.name; namespace = bench.namespace }

abbrev pub claim_key : Bench → NamespacedName
claim_key bench = record { name = bench.name ++ "-sites"; namespace = bench.namespace }

abbrev pub mode_of : StorageClass → String
mode_of sc = if storage_class_supports_rwx sc then read_write_many else read_write_once

access_mode_or : Bench → StorageClass → Option String → M String
access_mode_or bench sc (some mode) = pure mode
access_mode_or bench sc none =
    perform (λ e. e)
      (patch_annotation (bench_key bench) "frappe.tech/storage-access-mode" (mode_of sc))
    >> pure (mode_of sc)

pub determine_access_mode : Bench → StorageClass → M String
unfolding access_mode_or
determine_access_mode bench sc =
    access_mode_or bench sc (lookup "frappe.tech/storage-access-mode" bench.annotations)

abbrev pub storage_size : Bench → String
storage_size bench = if str_eq bench.spec.storage_size "" then "10Gi" else bench.spec.storage_size

pub fallback_annotation : String → List (String × String)
fallback_annotation mode =
    if str_eq mode read_write_once then ("frappe.tech/fallback", "true") ∷ [] else []

-- Annotations that are set later stand before earlier ones.
pub claim_spec : Bench → String → StorageClass → ClaimSpec
unfolding fallback_annotation
claim_spec bench mode sc = record {
  access_mode = mode;
  size = storage_size bench;
  class_name = some sc.name;
  annotations =
      fallback_annotation mode
      +++ (("frappe.tech/provisioner", sc.provisioner)
          ∷ ("frappe.tech/storage-class", sc.name)
          ∷ ("frappe.tech/requested-access", mode)
          ∷ []);
}

-- `resource.MustParse` panics on a text that is no quantity: `is_quantity` tells.
module _ (is_quantity : String → Bool) where
  pub create_bench_claim : Bench → String → StorageClass → M (Unit {0})
  create_bench_claim bench mode sc =
      if is_quantity (storage_size bench)
      then (set_owner (claim_key bench)
          >> perform (λ e. e) (create_claim (claim_key bench) (claim_spec bench mode sc)))
      else nil_dereference

  claim_missing : Bench → Got (Unit {0}) → M (Unit {0})
  unfolding create_bench_claim
  claim_missing bench (got x) = pure tt
  claim_missing bench (failed e) =
      if is_not_found e
      then (choose_storage_class bench >>= λ sc.
          determine_access_mode bench sc >>= λ mode. create_bench_claim bench mode sc)
      else raise e

  unfoldable pub ensure_bench_storage : Bench → M (Unit {0})
  unfolding claim_missing
  ensure_bench_storage bench =
      ask (λ (api : Api) h. api.exists h claim_kind (claim_key bench)) >>= claim_missing bench

-- The helpers for a claim that stays pending, which no reconciler calls.
is_fallback : Bench → Bool
unfolding is_true
is_fallback bench = is_true (lookup "frappe.tech/storage-fallback" bench.annotations)

pub get_bench_storage_access_mode : Bench → String
unfolding is_fallback
get_bench_storage_access_mode bench = if is_fallback bench then read_write_once else read_write_many

pub mark_storage_fallback : Bench → M (Unit {0})
mark_storage_fallback bench =
    perform (λ e. e) (patch_annotation (bench_key bench) "frappe.tech/storage-fallback" "true")

asks_for_many : Option String → Bool
asks_for_many none = false
asks_for_many (some mode) = str_eq mode read_write_many

-- `pending` tells whether the claim's phase is Pending; the annotations are the claim's.
pub should_fallback_storage : Bool → List (String × String) → Bench → Bool
unfolding asks_for_many is_fallback
should_fallback_storage pending annotations bench =
    pending
    && asks_for_many (lookup "frappe.tech/requested-access" annotations)
    && not (is_fallback bench)
