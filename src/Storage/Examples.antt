-- ===== src/Storage/Examples.antt =====
-- Tests of the storage of a bench, and its theorems at concrete inputs.
use frappe_operator.Types.{Bench}
use frappe_operator.Common.{List, ◌≡◌, refl, Bool, true, false, String, some, none, [], ◌∷◌}
use frappe_operator.Kube.{
  create_claim, patch_annotation, ClaimSpec, StorageClass, got, ok, Api, lookup,
}
use frappe_operator.Kube.Reads.{EmitsFrom}
use frappe_operator.Storage.{
  should_fallback_storage, asks_for_many, is_fallback, get_bench_storage_access_mode,
  storage_class_supports_rwx, contains_any, lower_contains, lower_begins, to_lower,
  is_default_storage_class, is_true, default_or, claim_spec, fallback_annotation,
  ensure_bench_storage, claim_key, bench_key,
}
use frappe_operator.Storage.Writes.{StorageCall, ensure_bench_storage-StorageCall}
use frappe_operator.Storage.Spec.{IsFirst, IsModeFor, IsClaim}
use frappe_operator.Storage.Provision.{ensure_bench_storage-provisions}
use frappe_operator.Fixtures.{prod, missing, empty_cluster}

abbrev disk : StorageClass
disk = record { name = "disk"; provisioner = "ebs.csi.aws.com"; annotations = [] }

abbrev share : StorageClass
share = record {
  name = "share";
  provisioner = "NFS.csi.k8s.io";
  annotations = ("storageclass.kubernetes.io/is-default-class", "true") ∷ [];
}

abbrev storage_cluster : Api
storage_cluster = record empty_cluster { list_storage_classes = λ h. got (disk ∷ share ∷ []) }

supports_test :
    (storage_class_supports_rwx disk ≡ false) × (storage_class_supports_rwx share ≡ true)
unfolding storage_class_supports_rwx contains_any lower_contains lower_begins to_lower
supports_test = (refl, refl)

default_test : default_or disk (disk ∷ share ∷ []) ≡ share
unfolding default_or is_default_storage_class is_true lookup
default_test = refl

fallback_test :
    lookup "frappe.tech/fallback" (claim_spec prod "ReadWriteOnce" disk).annotations ≡ some "true"
unfolding claim_spec fallback_annotation lookup
fallback_test = refl

abbrev asked : List (String × String)
asked = ("frappe.tech/requested-access", "ReadWriteMany") ∷ []

abbrev fallen : Bench
fallen = record prod { annotations = ("frappe.tech/storage-fallback", "true") ∷ [] }

fallback_helpers_test :
    (should_fallback_storage true asked prod ≡ true)
    × (should_fallback_storage false asked prod ≡ false)
    × (should_fallback_storage true asked fallen ≡ false)
    × (get_bench_storage_access_mode prod ≡ "ReadWriteMany")
    × (get_bench_storage_access_mode fallen ≡ "ReadWriteOnce")
unfolding should_fallback_storage asks_for_many is_fallback is_true get_bench_storage_access_mode
    lookup
fallback_helpers_test = (refl, refl, refl, refl, refl)

abbrev any_text : String → Bool
any_text s = true

ensure_bench_storage-StorageCall_example :
    EmitsFrom storage_cluster
      (StorageCall storage_cluster prod)
      (ensure_bench_storage any_text prod)
ensure_bench_storage-StorageCall_example =
    ensure_bench_storage-StorageCall storage_cluster prod any_text

no_annotation : lookup "frappe.tech/storage-access-mode" prod.annotations ≡ none
unfolding lookup
no_annotation = refl

ensure_bench_storage-provisions_example :
    (sc : StorageClass) × (mode : String) × (s : ClaimSpec) × IsFirst (disk ∷ share ∷ []) sc
    × IsModeFor sc mode
    × IsClaim prod sc mode s
    × (ensure_bench_storage any_text prod storage_cluster [] ≡ (
      ok tt,
      create_claim (claim_key prod) s
          ∷ patch_annotation (bench_key prod) "frappe.tech/storage-access-mode" mode
          ∷ [],
    ))
ensure_bench_storage-provisions_example =
    ensure_bench_storage-provisions storage_cluster prod any_text (λ h c. refl) refl refl
      no_annotation missing disk (share ∷ []) [] refl refl refl refl
