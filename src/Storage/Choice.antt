-- ===== src/Storage/Choice.antt =====
-- Which storage class and which access mode a bench gets.
use frappe_operator.Common.{
  ◌≡◌, ◌≢◌, ◌⊎◌, refl, String, Option, none, some, List, [], ◌∷◌, str_eq, str_ne, eq_iff,
  Bool-cases, Option-cases, inl, inr,
}
use frappe_operator.Types.{Bench}
use frappe_operator.Kube.{
  Got, got, failed, Result, ok, err, panic, patch_annotation, StorageClass, History, Api, ◌>>=◌,
  is_not_found, lookup,
}
use frappe_operator.Kube.Ensures.{Yields}
use frappe_operator.Storage.{
  specified_class, listed_class, choose_storage_class, mode_of, access_mode_or,
  determine_access_mode, bench_key,
}
use frappe_operator.Storage.Spec.{IsFirst, default_or-IsFirst, IsModeFor}
use frappe_operator.Storage.Modes.{mode_of-IsModeFor}

abbrev pub Named : String → Got StorageClass → StorageClass → Type 0
Named name g sc = (name ≢ "") × (g ≡ got sc) × (sc.provisioner ≢ "")

-- The first default class of those listed, or the first of all.
abbrev pub Listed : Got (List StorageClass) → StorageClass → Type 0
Listed (got items) sc = IsFirst items sc
Listed (failed e) sc = ⊥

abbrev pub IsChosen : Api → History → Bench → StorageClass → Type 0
IsChosen api h bench sc =
    Named bench.spec.storage_class_name (api.get_storage_class h bench.spec.storage_class_name) sc
    ⊎ ((bench.spec.storage_class_name ≡ "") × Listed (api.list_storage_classes h) sc)

listed_class-Yields :
    (g : Got (List StorageClass)) (api : Api) (h : History)
    → Yields (Listed g) (listed_class g api h).0
unfolding listed_class ◌>>=◌
listed_class-Yields (failed e) api h = tt
listed_class-Yields (got []) api h = tt
listed_class-Yields (got (sc ∷ rest)) api h = default_or-IsFirst sc rest

specified_class-Yields :
    (name : String) (g : Got StorageClass) (api : Api) (h : History)
    → name ≢ ""
    → Yields (Named name g) (specified_class name g api h).0
unfolding specified_class ◌>>=◌
specified_class-Yields name (got sc) api h ne = elim (Bool-cases (str_eq sc.provisioner "")) [
  | inl e ↦ rw e tt
  | inr e ↦ rw e (ne, refl, str_ne sc.provisioner "" e)
]
specified_class-Yields name (failed x) api h ne = elim (Bool-cases (is_not_found x)) [
  | inl e ↦ rw e tt
  | inr e ↦ rw e tt
]

Yields-mono :
    {A : Type 0} {P Q : A → Type 0} (r : Result A) → ((a : A) → P a → Q a) → Yields P r → Yields Q r
Yields-mono (ok a) f y = f a y
Yields-mono (err e) f y = tt
Yields-mono panic f y = tt

-- The class that is chosen for a bench is the one it names, which exists and has a provisioner, or,
-- if it names none, the first default one of the cluster's, or the first if none is a default one.
pub choose_storage_class-IsChosen :
    (api : Api) (h : History) (bench : Bench)
    → Yields (IsChosen api h bench) (choose_storage_class bench api h).0
unfolding choose_storage_class ◌>>=◌
choose_storage_class-IsChosen api h bench =
    let name = bench.spec.storage_class_name in
    elim (Bool-cases (str_eq name "")) [
      | inl e ↦ rw e (
          Yields-mono (listed_class (api.list_storage_classes h) api h).0
            (λ sc l. inr ((eq_iff name "").0 e, l))
            (listed_class-Yields (api.list_storage_classes h) api h))
      | inr e ↦ rw e (
          Yields-mono (specified_class name (api.get_storage_class h name) api h).0 (λ sc n. inl n)
            (specified_class-Yields name (api.get_storage_class h name) api h (str_ne name "" e)))
    ]

-- The mode in the annotation of the bench, or else the one for the class.
abbrev pub IsMode : Bench → StorageClass → String → Type 0
IsMode bench sc mode =
    (lookup "frappe.tech/storage-access-mode" bench.annotations ≡ some mode)
    ⊎ ((lookup "frappe.tech/storage-access-mode" bench.annotations ≡ none) × IsModeFor sc mode)

access_mode_or-Yields :
    (bench : Bench) (sc : StorageClass) (o : Option String) (api : Api) (h : History)
    → lookup "frappe.tech/storage-access-mode" bench.annotations ≡ o
    → Yields (IsMode bench sc) (access_mode_or bench sc o api h).0
unfolding access_mode_or ◌>>=◌
access_mode_or-Yields bench sc (some mode) api h e = inl e
access_mode_or-Yields bench sc none api h e =
    elim (Option-cases (
      api.write h
        (patch_annotation (bench_key bench) "frappe.tech/storage-access-mode" (mode_of sc)))) [
          | inl w ↦ rw w (inr (e, mode_of-IsModeFor sc))
          | inr (x, w) ↦ rw w tt
        ]

pub determine_access_mode-IsMode :
    (bench : Bench) (sc : StorageClass) (api : Api) (h : History)
    → Yields (IsMode bench sc) (determine_access_mode bench sc api h).0
unfolding determine_access_mode
determine_access_mode-IsMode bench sc api h =
    access_mode_or-Yields bench sc (lookup "frappe.tech/storage-access-mode" bench.annotations) api
      h refl
