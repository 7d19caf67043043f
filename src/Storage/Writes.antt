-- ===== src/Storage/Writes.antt =====
-- What the storage of a bench writes.
use frappe_operator.Common.{◌≡◌, refl, String, Bool, Option, none, some, List, [], ◌∷◌}
use frappe_operator.Types.{Bench}
use frappe_operator.Kube.{
  Got, got, failed, StorageClass, Call, create_claim, patch_annotation, History, Api, lookup, ◌>>=◌,
  raise, claim_kind, is_not_found,
}
use frappe_operator.Kube.Traces.{Emits, Emits-raise, Emits-pure, emit_rules}
use frappe_operator.Kube.Reads.{EmitsFrom, From-Emits, From-bind, From-ask, From-if}
use frappe_operator.Storage.{
  bench_key, claim_key, claim_spec, mode_of, specified_class, listed_class, choose_storage_class,
  access_mode_or, determine_access_mode, create_bench_claim, claim_missing, ensure_bench_storage,
}
use frappe_operator.Storage.Choice.{
  IsChosen, choose_storage_class-IsChosen, IsMode, determine_access_mode-IsMode,
}
use Prim.Native.String.{◌++◌}
use frappe_operator.Storage.Spec.{IsModeFor, IsClaim, claim_spec-IsClaim}
use frappe_operator.Storage.Modes.{mode_of-IsModeFor}

-- The claim of the bench for a class chosen by the rules, or the annotation that keeps the mode of
-- such a class on a bench that has none.
abbrev pub StorageCall : Api → Bench → Call → Type 0
StorageCall api bench (create_claim k s) =
    (k ≡ record { name = bench.name ++ "-sites"; namespace = bench.namespace })
    × ((h : History) × (sc : StorageClass) × (mode : String) × IsChosen api h bench sc
        × IsMode bench sc mode
        × IsClaim bench sc mode s)
StorageCall api bench (patch_annotation k n v) =
    (k ≡ record { name = bench.name; namespace = bench.namespace })
    × (n ≡ "frappe.tech/storage-access-mode")
    × (lookup "frappe.tech/storage-access-mode" bench.annotations ≡ none)
    × ((h : History) × (sc : StorageClass) × IsChosen api h bench sc × IsModeFor sc v)
StorageCall api bench _ = ⊥

module _ (api : Api) (bench : Bench) where
  specified-Emits :
      (name : String) (g : Got StorageClass)
      → Emits (StorageCall api bench) (specified_class name g)
  unfolding specified_class
  specified-Emits name (got sc) = search emit_rules
  specified-Emits name (failed e) = search emit_rules

  listed-Emits : (g : Got (List StorageClass)) → Emits (StorageCall api bench) (listed_class g)
  unfolding listed_class
  listed-Emits (failed e) = search emit_rules
  listed-Emits (got []) = search emit_rules
  listed-Emits (got (sc ∷ rest)) = search emit_rules

  choose-Emits : Emits (StorageCall api bench) (choose_storage_class bench)
  unfolding choose_storage_class
  choose-Emits = search (emit_rules, specified-Emits, listed-Emits) depth 12

  module _ (h : History) (sc : StorageClass) (chosen : IsChosen api h bench sc) where
    mode-Emits :
        (o : Option String)
        → lookup "frappe.tech/storage-access-mode" bench.annotations ≡ o
        → Emits (StorageCall api bench) (access_mode_or bench sc o)
    unfolding access_mode_or
    mode-Emits (some mode) e = search emit_rules
    mode-Emits none e =
        let patched : StorageCall api bench
            (patch_annotation (bench_key bench) "frappe.tech/storage-access-mode" (mode_of sc)) =
          (refl, refl, e, (h, sc, chosen, mode_of-IsModeFor sc)) in
        search (emit_rules, patched) depth 12

    determine-Emits : Emits (StorageCall api bench) (determine_access_mode bench sc)
    unfolding determine_access_mode
    determine-Emits = mode-Emits (lookup "frappe.tech/storage-access-mode" bench.annotations) refl

    claim-Emits :
        (is_quantity : String → Bool) (mode : String)
        → IsMode bench sc mode
        → Emits (StorageCall api bench) (create_bench_claim is_quantity bench mode sc)
    unfolding create_bench_claim
    claim-Emits is_quantity mode m =
        let created : StorageCall api bench
            (create_claim (claim_key bench) (claim_spec bench mode sc)) =
          (refl, (h, sc, mode, chosen, m, claim_spec-IsClaim bench mode sc)) in
        search (emit_rules, created) depth 12

  after_choice :
      (is_quantity : String → Bool) (h : History) (sc : StorageClass)
      → IsChosen api h bench sc
      → EmitsFrom api
          (StorageCall api bench)
          (determine_access_mode bench sc >>= λ mode. create_bench_claim is_quantity bench mode sc)
  after_choice is_quantity h sc c =
      From-bind (determine_access_mode bench sc)
        (λ mode. create_bench_claim is_quantity bench mode sc) (From-Emits (determine-Emits h sc c))
        (λ mode h₁ h₂ e.
          let y = determine_access_mode-IsMode bench sc api h₁ in
          From-Emits (claim-Emits h sc c is_quantity mode (rw e at y)))

  missing-Emits :
      (is_quantity : String → Bool) (g : Got (Unit {0}))
      → EmitsFrom api (StorageCall api bench) (claim_missing is_quantity bench g)
  unfolding claim_missing
  missing-Emits is_quantity (got x) = From-Emits (Emits-pure tt)
  missing-Emits is_quantity (failed x) =
      From-if (is_not_found x) _ (raise x)
        (λ e. From-bind (choose_storage_class bench) _ (From-Emits choose-Emits) (λ sc h₁ h₂ e.
          let y = choose_storage_class-IsChosen api h₁ bench in
          after_choice is_quantity h₁ sc (rw e at y)))
        (λ e. From-Emits (Emits-raise x))

  -- Nothing is written for the storage of a bench but its own claim and the annotation that keeps its
  -- access mode. The claim has the class that the bench names, which was read and has a provisioner,
  -- or, if it names none, the first default class of those listed, or the first if none is a default
  -- one. Its mode is that in the annotation of the bench, and else ReadWriteMany if the provisioner of
  -- the class contains one of the seven names of shared storage, in whatever case, and ReadWriteOnce
  -- if not. Its size is the bench's, or 10Gi, and its annotations tell the class, the provisioner and
  -- the mode. The annotation is written only on a bench without one, with the mode for such a class.
  pub ensure_bench_storage-StorageCall :
      (is_quantity : String → Bool)
      → EmitsFrom api (StorageCall api bench) (ensure_bench_storage is_quantity bench)
  unfolding ensure_bench_storage
  ensure_bench_storage-StorageCall is_quantity =
      From-ask _ (claim_missing is_quantity bench)
        (λ h. missing-Emits is_quantity (api.exists h claim_kind (claim_key bench)))
