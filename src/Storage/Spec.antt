-- ===== src/Storage/Spec.antt =====
-- What the storage of a bench has to be, independently of how it is chosen: the storage class, the
-- access mode and the claim.
use Prim.Native.Char.{code}
use mathlib.Core.List.{◌++◌ as ◌+++◌, Memᴰ}
use mathlib.Core.Bool.{false≢true}
use frappe_operator.Common.{
  ℕ, ◌≡◌, ◌≢◌, ◌⊎◌, ◌↔◌, inl, inr, refl, sym, ◌∙◌, ap, String, Bool, true, false, Bool-cases,
  Option, none, some, List, [], ◌∷◌, All, str_eq, str_ne, eq_iff, if◌then◌else◌, arith,
}
use frappe_operator.Types.{Bench}
use frappe_operator.Kube.{StorageClass, ClaimSpec, lookup}
use frappe_operator.Storage.{
  to_lower, is_true, is_default_storage_class, default_or, fallback_annotation, claim_spec,
}

-- One of the two annotations makes the class a default one.
abbrev pub HasDefault : StorageClass → Type 0
HasDefault sc =
    (lookup "storageclass.kubernetes.io/is-default-class" sc.annotations ≡ some "true")
    ⊎ (lookup "storageclass.beta.kubernetes.io/is-default-class" sc.annotations ≡ some "true")

-- The first default one, or the first of all if none is a default one.
abbrev pub IsFirst : List StorageClass → StorageClass → Type 0
IsFirst items sc =
    ((before : List StorageClass) × (after : List StorageClass) × (items ≡ before +++ (sc ∷ after))
      × HasDefault sc
      × All (λ x. ¬ HasDefault x) before)
    ⊎ ((rest : List StorageClass) × (items ≡ sc ∷ rest) × All (λ x. ¬ HasDefault x) items)

-- The letters of a text, in lower case and as they are.
unfoldable pub lowered : String → List ℕ
lowered String.[] = []
lowered (String.◌∷◌ c s) = to_lower (code c) ∷ lowered s

unfoldable pub codes : String → List ℕ
codes String.[] = []
codes (String.◌∷◌ c s) = code c ∷ codes s

abbrev pub Contains : String → String → Type 0
Contains s p = (before : List ℕ) × (after : List ℕ) × (lowered s ≡ before +++ (codes p +++ after))

-- The provisioner has one of these names in it, in whatever case.
abbrev pub AllowsMany : StorageClass → Type 0
AllowsMany sc =
    (p : String) × Memᴰ p
      ("nfs" ∷ "ceph" ∷ "gluster" ∷ "netapp" ∷ "azurefile" ∷ "filestore" ∷ "portworx" ∷ [])
    × Contains sc.provisioner p

abbrev pub IsModeFor : StorageClass → String → Type 0
IsModeFor sc mode =
    (AllowsMany sc × (mode ≡ "ReadWriteMany")) ⊎ ((¬ AllowsMany sc) × (mode ≡ "ReadWriteOnce"))

-- The claim of a bench for a class and a mode.
pub record IsClaim (bench : Bench) (sc : StorageClass) (mode : String) (s : ClaimSpec)
    : Type 0 where
  pub access_mode : s.access_mode ≡ mode
  pub class_name : s.class_name ≡ some sc.name
  pub size :
      ((bench.spec.storage_size ≡ "") × (s.size ≡ "10Gi"))
      ⊎ ((bench.spec.storage_size ≢ "") × (s.size ≡ bench.spec.storage_size))
  pub requested : lookup "frappe.tech/requested-access" s.annotations ≡ some mode
  pub class_kept : lookup "frappe.tech/storage-class" s.annotations ≡ some sc.name
  pub provisioner : lookup "frappe.tech/provisioner" s.annotations ≡ some sc.provisioner
  pub fallback :
      lookup "frappe.tech/fallback" s.annotations
      ≡ (if str_eq mode "ReadWriteOnce" then some "true" else none)

is_true_iff : (o : Option String) → (is_true o ≡ true) ↔ (o ≡ some "true")
unfolding is_true
is_true_iff none = ((λ e. absurd (false≢true e)), (λ e. cc))
is_true_iff (some v) = ((λ e. ap some ((eq_iff v "true").0 e)), (λ e. (eq_iff v "true").1 cc))

is_default-HasDefault : (sc : StorageClass) → is_default_storage_class sc ≡ true → HasDefault sc
unfolding is_default_storage_class
is_default-HasDefault sc e =
    elim (Bool-cases
      (is_true (lookup "storageclass.kubernetes.io/is-default-class" sc.annotations))) [
        | inl y ↦ inl ((is_true_iff _).0 y)
        | inr n ↦ inr ((is_true_iff _).0 (rw n at e))
      ]

HasDefault-is_default : (sc : StorageClass) → HasDefault sc → is_default_storage_class sc ≡ true
unfolding is_default_storage_class is_true
HasDefault-is_default sc (inl p) = rw p refl
HasDefault-is_default sc (inr p) = rw p (ground arith)

no_default : (sc : StorageClass) → is_default_storage_class sc ≡ false → ¬ HasDefault sc
no_default sc n d = false≢true (sym n ∙ HasDefault-is_default sc d)

-- What the loop returns: the first default class, or else the other one.
abbrev FirstOr : StorageClass → List StorageClass → StorageClass → Type 0
FirstOr other items sc =
    ((before : List StorageClass) × (after : List StorageClass) × (items ≡ before +++ (sc ∷ after))
      × HasDefault sc
      × All (λ x. ¬ HasDefault x) before)
    ⊎ ((sc ≡ other) × All (λ x. ¬ HasDefault x) items)

FirstOr-step :
    (other sc : StorageClass) (rest : List StorageClass) (r : StorageClass) (b : Bool)
    → is_default_storage_class sc ≡ b
    → FirstOr other rest r
    → FirstOr other (sc ∷ rest) (if b then sc else r)
FirstOr-step other sc rest r true d y = inl ([], rest, refl, is_default-HasDefault sc d, tt)
FirstOr-step other sc rest r false d (inl (b, a, e, y, n)) =
    inl (sc ∷ b, a, ap (λ (l : List StorageClass). sc ∷ l) e, y, (no_default sc d, n))
FirstOr-step other sc rest r false d (inr (e, n)) = inr (e, (no_default sc d, n))

default_or-FirstOr :
    (other : StorageClass) (items : List StorageClass)
    → FirstOr other items (default_or other items)
unfolding default_or
default_or-FirstOr other [] = inr (refl, tt)
default_or-FirstOr other (sc ∷ rest) =
    FirstOr-step other sc rest (default_or other rest) (is_default_storage_class sc) refl
      (default_or-FirstOr other rest)

pub default_or-IsFirst :
    (sc : StorageClass) (rest : List StorageClass) → IsFirst (sc ∷ rest) (default_or sc (sc ∷ rest))
default_or-IsFirst sc rest = elim (default_or-FirstOr sc (sc ∷ rest)) [
  | inl y ↦ inl y
  | inr (e, n) ↦ inr (rest, ap (λ (x : StorageClass). x ∷ rest) (sym e), n)
]

pub claim_spec-IsClaim :
    (bench : Bench) (mode : String) (sc : StorageClass)
    → IsClaim bench sc mode (claim_spec bench mode sc)
unfolding claim_spec fallback_annotation lookup
claim_spec-IsClaim bench mode sc = record {
  access_mode = refl;
  class_name = refl;
  size = elim (Bool-cases (str_eq bench.spec.storage_size "")) [
    | inl e ↦ inl ((eq_iff bench.spec.storage_size "").0 e, rw e refl)
    | inr n ↦ inr (str_ne bench.spec.storage_size "" n, rw n refl)
  ];
  requested = elim (Bool-cases (str_eq mode "ReadWriteOnce")) [
    | inl e ↦ rw e refl
    | inr n ↦ rw n refl
  ];
  class_kept = elim (Bool-cases (str_eq mode "ReadWriteOnce")) [
    | inl e ↦ rw e refl
    | inr n ↦ rw n refl
  ];
  provisioner = elim (Bool-cases (str_eq mode "ReadWriteOnce")) [
    | inl e ↦ rw e refl
    | inr n ↦ rw n refl
  ];
  fallback = elim (Bool-cases (str_eq mode "ReadWriteOnce")) [
    | inl e ↦ rw e refl
    | inr n ↦ rw n refl
  ];
}
