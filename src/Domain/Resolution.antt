-- ===== src/Domain/Resolution.antt =====
-- What `resolveDomain` returns.
use Prim.Native.String.{◌++◌}
use frappe_operator.Common.{
  ◌≡◌, ◌≢◌, ◌⊎◌, String, true, false, Option, none, some, arith, str_eq, eq_iff, str_ne, inl, inr,
  Bool-cases, Option-cases,
}
use frappe_operator.Types.{DomainConfig}
use frappe_operator.Domain.Detection.{detect_domain_suffix-IsFirst}
use frappe_operator.Domain.{
  Service, ServiceKey, detect_domain_suffix, Source, explicit, bench_suffix, auto_detected,
  sitename_default, suffix_in, auto_detect_in, detected, resolve_domain,
}

-- How a domain may come about: the site's own, or the site name with a suffix, or the site name.
pub data Resolved (domain site_name : String) (config : Option DomainConfig)
    (get : ServiceKey → Option Service) : String → Source → Type 0 where
  own : domain ≢ "" → Resolved domain site_name config get domain explicit
  configured :
      domain ≡ ""
      → suffix_in config ≢ ""
      → Resolved domain site_name config get (site_name ++ suffix_in config) bench_suffix
  found :
      (suffix : String)
      → domain ≡ ""
      → suffix_in config ≡ ""
      → auto_detect_in config ≡ true
      → detect_domain_suffix get ≡ some suffix
      → Resolved domain site_name config get (site_name ++ suffix) auto_detected
  plain :
      domain ≡ ""
      → suffix_in config ≡ ""
      → (auto_detect_in config ≡ false) ⊎ (detect_domain_suffix get ≡ none)
      → Resolved domain site_name config get site_name sitename_default

detected-some :
    (site_name suffix : String)
    → suffix ≢ ""
    → detected site_name (some suffix) ≡ (site_name ++ suffix, auto_detected)
unfolding detected
detected-some site_name suffix ne = ground (arith, eq_iff suffix "")

module _ (domain site_name : String) (config : Option DomainConfig)
    (get : ServiceKey → Option Service) where
  -- The domain is the site's own if it has one, else the site name with the bench's suffix if that
  -- is not empty, else the site name with the detected suffix if detection is on and finds one, else
  -- the site name; the source says which.
  pub resolve_domain-Resolved :
      Resolved domain site_name config get
        (resolve_domain domain site_name config get).0
        (resolve_domain domain site_name config get).1
  unfolding resolve_domain
  resolve_domain-Resolved = elim (Bool-cases (str_eq domain "")) [
    | inr own' ↦ rw own' (own (str_ne domain "" own'))
    | inl none' ↦ rw none' (elim (Bool-cases (str_eq (suffix_in config) "")) [
      | inr some' ↦ rw some' (configured ((eq_iff _ _).0 none') (str_ne _ "" some'))
      | inl no_suffix ↦ rw no_suffix (elim (Bool-cases (auto_detect_in config)) [
        | inr off ↦ rw off (plain ((eq_iff _ _).0 none') ((eq_iff _ _).0 no_suffix) (inl off))
        | inl on ↦ rw on (elim (Option-cases (detect_domain_suffix get)) [
          | inl nothing ↦
              rw nothing (plain ((eq_iff _ _).0 none') ((eq_iff _ _).0 no_suffix) (inr nothing))
          | inr (suffix, hit) ↦
              rw
                (
                  hit,
                  detected-some site_name suffix
                      (detect_domain_suffix-IsFirst get suffix hit).useful,
                )
                (found suffix ((eq_iff _ _).0 none') ((eq_iff _ _).0 no_suffix) on hit)
        ])
      ])
    ])
  ]
