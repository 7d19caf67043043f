-- ===== src/Storage/Provision.antt =====
-- That a bench without a volume gets one.
use Prim.Native.String.{◌++◌}
use frappe_operator.Common.{◌≡◌, refl, String, Bool, true, none, List, ◌∷◌}
use frappe_operator.Types.{Bench}
use frappe_operator.Kube.{
  Err, got, failed, ok, StorageClass, ClaimSpec, Call, create_claim, patch_annotation, claim_kind,
  History, Api, lookup, ◌>>=◌, is_not_found,
}
use frappe_operator.Storage.{
  bench_key, claim_key, claim_spec, mode_of, default_or, listed_class, choose_storage_class,
  access_mode_or, determine_access_mode, storage_size, create_bench_claim, claim_missing,
  ensure_bench_storage,
}
use frappe_operator.Storage.Spec.{
  IsFirst, default_or-IsFirst, IsModeFor, IsClaim, claim_spec-IsClaim,
}
use frappe_operator.Storage.Modes.{mode_of-IsModeFor}

module _ (api : Api) (bench : Bench) (is_quantity : String → Bool)
    (writes : (h : History) (c : Call) → api.write h c ≡ none)
    (owned : api.set_controller_reference (claim_key bench) ≡ none)
    (size : is_quantity (storage_size bench) ≡ true)
    (unset : lookup "frappe.tech/storage-access-mode" bench.annotations ≡ none) where
  claim-lem :
      (sc : StorageClass) (mode : String) (h : History)
      → create_bench_claim is_quantity bench mode sc api h
        ≡ (ok tt, create_claim (claim_key bench) (claim_spec bench mode sc) ∷ h)
  unfolding create_bench_claim ◌>>=◌
  claim-lem sc mode h =
      rw (size, owned, writes h (create_claim (claim_key bench) (claim_spec bench mode sc))) refl

  mode-lem :
      (sc : StorageClass) (h : History)
      → determine_access_mode bench sc api h ≡ (
        ok (mode_of sc),
        patch_annotation (bench_key bench) "frappe.tech/storage-access-mode" (mode_of sc) ∷ h,
      )
  unfolding determine_access_mode access_mode_or ◌>>=◌
  mode-lem sc h =
      rw
        (
          unset,
          writes h
              (patch_annotation (bench_key bench) "frappe.tech/storage-access-mode" (mode_of sc)),
        )
        refl

  choose-lem :
      (sc : StorageClass) (rest : List StorageClass) (h : History)
      → bench.spec.storage_class_name ≡ ""
      → api.list_storage_classes h ≡ got (sc ∷ rest)
      → choose_storage_class bench api h ≡ (ok (default_or sc (sc ∷ rest)), h)
  unfolding choose_storage_class listed_class ◌>>=◌
  choose-lem sc rest h unnamed listed = rw (unnamed, listed) refl

  -- A bench with no claim, no class of its own and no mode in its annotations gets, when every write
  -- succeeds, its size is a quantity and the cluster lists a class, first the annotation with the mode
  -- and then the claim: no other write, and no error. Both are for the first default class of those
  -- listed, or the first if none is a default one. The mode is ReadWriteMany if the provisioner of that
  -- class contains one of the seven names of shared storage, in whatever case, and ReadWriteOnce if
  -- not. The claim has the class, the mode and the size of the bench, or 10Gi.
  pub ensure_bench_storage-provisions :
      (e : Err) (first : StorageClass) (rest : List StorageClass) (h : History)
      → api.exists h claim_kind (claim_key bench) ≡ failed e
      → is_not_found e ≡ true
      → bench.spec.storage_class_name ≡ ""
      → api.list_storage_classes h ≡ got (first ∷ rest)
      → (sc : StorageClass) × (mode : String) × (s : ClaimSpec) × IsFirst (first ∷ rest) sc
        × IsModeFor sc mode
        × IsClaim bench sc mode s
        × (ensure_bench_storage is_quantity bench api h ≡ (
          ok tt,
          create_claim (record { name = bench.name ++ "-sites"; namespace = bench.namespace }) s
              ∷ patch_annotation
                  (record { name = bench.name; namespace = bench.namespace })
                  "frappe.tech/storage-access-mode"
                  mode
              ∷ h,
        ))
  unfolding ensure_bench_storage claim_missing ◌>>=◌
  ensure_bench_storage-provisions e first rest h gone absent unnamed listed =
      let sc = default_or first (first ∷ rest) in
      (
        sc,
        mode_of sc,
        claim_spec bench (mode_of sc) sc,
        default_or-IsFirst first rest,
        mode_of-IsModeFor sc,
        claim_spec-IsClaim bench (mode_of sc) sc,
        rw
            (
              gone,
              absent,
              choose-lem first rest h unnamed listed,
              mode-lem sc h,
              claim-lem sc (mode_of sc) (
                  patch_annotation (bench_key bench) "frappe.tech/storage-access-mode" (mode_of sc)
                  ∷ h),
            )
            refl,
      )
