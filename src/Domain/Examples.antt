-- ===== src/Domain/Examples.antt =====
-- Tests of the domain of a site, and its theorems at concrete inputs.
use frappe_operator.Common.{◌≡◌, ◌≢◌, true, Option, none, some, refl, str_ne, split}
use frappe_operator.Domain.{
  Service, ServiceKey, contains, trim_prefix, is_ip_address, join_two, last_two,
  extract_domain_suffix, detect_domain_suffix, ingress_services, resolve_domain, auto_detected,
}
use frappe_operator.Domain.Suffix.{bare, IsSuffixOf, extract_domain_suffix-IsSuffixOf}
use frappe_operator.Domain.Detection.{IsFirst, detect_domain_suffix-IsFirst}
use frappe_operator.Domain.Resolution.{Resolved, resolve_domain-Resolved}

abbrev balancer : Service
balancer = record {
  hostname_annotation = none;
  is_load_balancer = true;
  first_ingress = some "lb.acme.io";
}

abbrev only_balancer : ServiceKey → Option Service
only_balancer k = some balancer

extract_domain_suffix_test : extract_domain_suffix "*.apps.acme.io" ≡ ".acme.io"
unfolding extract_domain_suffix contains trim_prefix is_ip_address join_two last_two split
extract_domain_suffix_test = refl

address_test : extract_domain_suffix "10.0.0.1" ≡ ""
unfolding extract_domain_suffix contains trim_prefix is_ip_address join_two last_two split
address_test = refl

detected_test : detect_domain_suffix only_balancer ≡ some ".acme.io"
unfolding detect_domain_suffix extract_domain_suffix contains trim_prefix is_ip_address join_two
    last_two split
detected_test = refl

resolve_domain_test : resolve_domain "" "shop" none only_balancer ≡ ("shop.acme.io", auto_detected)
unfolding resolve_domain detect_domain_suffix extract_domain_suffix contains trim_prefix
    is_ip_address join_two last_two split
resolve_domain_test = refl

has_suffix : extract_domain_suffix "lb.acme.io" ≢ ""
unfolding extract_domain_suffix contains trim_prefix is_ip_address join_two last_two split
has_suffix = str_ne ".acme.io" "" refl

extract_domain_suffix-IsSuffixOf_example :
    IsSuffixOf (bare "lb.acme.io") (extract_domain_suffix "lb.acme.io")
extract_domain_suffix-IsSuffixOf_example = extract_domain_suffix-IsSuffixOf "lb.acme.io" has_suffix

detect_domain_suffix-IsFirst_example : IsFirst only_balancer ingress_services ".acme.io"
detect_domain_suffix-IsFirst_example =
    detect_domain_suffix-IsFirst only_balancer ".acme.io" detected_test

resolve_domain-Resolved_example :
    Resolved "shop.io" "shop" none only_balancer
      (resolve_domain "shop.io" "shop" none only_balancer).0
      (resolve_domain "shop.io" "shop" none only_balancer).1
resolve_domain-Resolved_example = resolve_domain-Resolved "shop.io" "shop" none only_balancer
