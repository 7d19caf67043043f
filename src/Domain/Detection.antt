-- ===== src/Domain/Detection.antt =====
-- What `DetectDomainSuffix` returns: the suffix of the first service that yields one.
use frappe_operator.Common.{
  ◌≡◌, ◌≢◌, String, Option, none, some, List, [], ◌∷◌, ◌++◌, refl, arith, eq_iff, All, Option-cases,
  inl, inr, ap, ◌∙◌,
}
use frappe_operator.Domain.{
  Service, ServiceKey, extract_domain_suffix, suffix_of, detect_in_service, detect_at, detect_among,
  detect_domain_suffix, ingress_services,
}

suffix_of-ne : (o : Option String) (s : String) → suffix_of o ≡ some s → s ≢ ""
unfolding suffix_of
suffix_of-ne none s h = cc
suffix_of-ne (some t) s h = ground (arith, eq_iff t "", eq_iff (extract_domain_suffix t) "")

detect_in_service-ne : (svc : Service) (s : String) → detect_in_service svc ≡ some s → s ≢ ""
unfolding detect_in_service
detect_in_service-ne svc s h =
    ground (arith, suffix_of-ne svc.hostname_annotation s, suffix_of-ne svc.first_ingress s)

-- The keys before `key` yield nothing, and `key` yields `s`.
pub record IsFirst (get : ServiceKey → Option Service) (keys : List ServiceKey) (s : String)
    : Type 0 where
  pub before : List ServiceKey
  pub key : ServiceKey
  pub after : List ServiceKey
  pub svc : Service
  pub order : keys ≡ before ++ (key ∷ after)
  pub skipped : All (λ k. detect_at (get k) ≡ none) before
  pub found : get key ≡ some svc
  pub yields : detect_in_service svc ≡ some s
  pub useful : s ≢ ""

at_key :
    (o : Option Service) (s : String)
    → detect_at o ≡ some s
    → (svc : Service) × (o ≡ some svc) × (detect_in_service svc ≡ some s)
unfolding detect_at
at_key none s h = cc
at_key (some svc) s h = (svc, refl, h)

detect_among-IsFirst :
    (get : ServiceKey → Option Service) (keys : List ServiceKey) (s : String)
    → detect_among get keys ≡ some s
    → IsFirst get keys s
unfolding detect_among
detect_among-IsFirst get [] s h = cc
detect_among-IsFirst get (k ∷ ks) s h = elim (Option-cases (detect_at (get k))) [
  | inl miss ↦
      let ih = detect_among-IsFirst get ks s (rw miss at h) in
      record {
        before = k ∷ ih.before;
        key = ih.key;
        after = ih.after;
        svc = ih.svc;
        order = ap (λ (l : List ServiceKey). k ∷ l) ih.order;
        skipped = (miss, ih.skipped);
        found = ih.found;
        yields = ih.yields;
        useful = ih.useful;
      }
  | inr (t, hit) ↦
      let e : detect_at (get k) ≡ some s = hit ∙ (rw hit at h) in
      let (svc, found, yields) = at_key (get k) s e in
      record {
        before = [];
        key = k;
        after = ks;
        svc = svc;
        order = refl;
        skipped = tt;
        found = found;
        yields = yields;
        useful = detect_in_service-ne svc s yields;
      }
]

-- A detected suffix is that of the first of the four services, in their order, that is found and
-- yields one, and it is not empty.
pub detect_domain_suffix-IsFirst :
    (get : ServiceKey → Option Service) (s : String)
    → detect_domain_suffix get ≡ some s
    → IsFirst get ingress_services s
unfolding detect_domain_suffix
detect_domain_suffix-IsFirst get s h = detect_among-IsFirst get ingress_services s h
