-- ===== src/Domain.antt =====
-- The domain of a site: controllers/domain_detector.go, and `resolveDomain` of
-- controllers/site_lifecycle.go. Texts are walked by characters; the tests of the source compare
-- single bytes below 128, which no byte of a longer character equals.
pub mod Suffix
pub mod Detection
pub mod Resolution
mod Examples
use Prim.Native.Char.{Char, code}
use Prim.Native.String.{◌++◌}
use frappe_operator.Common.{
  ℕ, zero, suc, String, Bool, true, false, ◌&&◌, ◌||◌, not, Option, none, some, List, [], ◌∷◌, leb,
  ltb, ◌==◌, str_eq, if◌then◌else◌, deref_or, Parts, split,
}
use frappe_operator.Types.{DomainConfig}

-- `strings.TrimPrefix(s, p)` for a prefix of one character.
pub trim_prefix : ℕ → String → String
trim_prefix p String.[] = ""
trim_prefix p (String.◌∷◌ c s) = if code c == p then s else String.◌∷◌ c s

-- `strings.Contains(s, p)` for one character.
pub contains : ℕ → String → Bool
contains p String.[] = false
contains p (String.◌∷◌ c s) = code c == p || contains p s

all_digits : String → Bool
all_digits String.[] = true
all_digits (String.◌∷◌ c s) = not (ltb (code c) b'0' || ltb b'9' (code c)) && all_digits s

abbrev length : String → ℕ
length String.[] = 0
length (String.◌∷◌ c s) = suc (length s)

-- The length test and the loop over the characters of one part.
is_octet : String → Bool
unfolding all_digits
is_octet part = not (length part == 0 || ltb 3 (length part)) && all_digits part

four_octets : String → List String → Bool
unfolding is_octet
four_octets a (b ∷ c ∷ d ∷ []) = is_octet a && is_octet b && is_octet c && is_octet d
four_octets a _ = false

pub is_ip_address : String → Bool
unfolding split four_octets
is_ip_address s = let p = split b'.' s in four_octets p.first p.others

-- The last two of at least two parts, joined behind a dot.
pub last_two : String → List String → Option (String × String)
last_two a [] = none
last_two a (b ∷ []) = some (a, b)
last_two a (b ∷ c ∷ rest) = last_two b (c ∷ rest)

pub join_two : Option (String × String) → String
join_two none = ""
join_two (some (a, b)) = "." ++ (a ++ ("." ++ b))

pub suffix_of_host : String → String
suffix_of_host host =
    if contains b':' host || is_ip_address host
    then ""
    else let p = split b'.' host in join_two (last_two p.first p.others)

unfoldable pub extract_domain_suffix : String → String
unfolding suffix_of_host
extract_domain_suffix hostname =
    if str_eq hostname "" then "" else suffix_of_host (trim_prefix b'.' (trim_prefix b'*' hostname))

-- What the detector reads of a Service: the external-dns annotation, whether the type is
-- LoadBalancer, and the hostname of the first ingress of the status, if there is one.
pub record Service : Type 0 where
  pub hostname_annotation : Option String
  pub is_load_balancer : Bool
  pub first_ingress : Option String

-- A hostname that is there and not empty yields its suffix, if that is not empty.
suffix_of : Option String → Option String
unfolding extract_domain_suffix
suffix_of none = none
suffix_of (some h) =
    if str_eq h ""
    then none
    else let suffix = extract_domain_suffix h in if str_eq suffix "" then none else some suffix

or_from : Option String → Option String → Option String
or_from (some s) other = some s
or_from none other = other

pub detect_in_service : Service → Option String
unfolding suffix_of or_from
detect_in_service svc =
    or_from (suffix_of svc.hostname_annotation)
      (if svc.is_load_balancer then suffix_of svc.first_ingress else none)

pub detect_at : Option Service → Option String
unfolding detect_in_service
detect_at none = none
detect_at (some svc) = detect_in_service svc

-- A key of a Service: name and namespace.
abbrev pub ServiceKey : Type 0
ServiceKey = String × String

abbrev pub ingress_services : List ServiceKey
ingress_services =
    ("ingress-nginx-controller", "ingress-nginx")
    ∷ ("nginx-ingress-controller", "ingress-nginx")
    ∷ ("traefik", "traefik")
    ∷ ("traefik", "kube-system")
    ∷ []

-- The loop over the services; `none` from the client is any error, which goes on to the next.
pub detect_among : (ServiceKey → Option Service) → List ServiceKey → Option String
unfolding detect_at or_from
detect_among get [] = none
detect_among get (k ∷ ks) = or_from (detect_at (get k)) (detect_among get ks)

-- `none` is the error result.
unfoldable pub detect_domain_suffix : (ServiceKey → Option Service) → Option String
unfolding detect_among
detect_domain_suffix get = detect_among get ingress_services

pub data Source : Type 0 where
  explicit bench_suffix auto_detected sitename_default : Source

-- The text that the status holds.
pub source_text : Source → String
source_text explicit = "explicit"
source_text bench_suffix = "bench-suffix"
source_text auto_detected = "auto-detected"
source_text sitename_default = "sitename-default"

abbrev suffix_in : Option DomainConfig → String
suffix_in none = ""
suffix_in (some c) = c.suffix

abbrev auto_detect_in : Option DomainConfig → Bool
auto_detect_in none = true
auto_detect_in (some c) = deref_or c.auto_detect true

detected : String → Option String → String × Source
detected site_name none = (site_name, sitename_default)
detected site_name (some suffix) =
    if str_eq suffix "" then (site_name, sitename_default) else (site_name ++ suffix, auto_detected)

-- The site's domain and site name, the bench's configuration, and the client.
unfoldable pub resolve_domain :
    String → String → Option DomainConfig → (ServiceKey → Option Service) → String × Source
unfolding detected
resolve_domain domain site_name config get =
    if not (str_eq domain "")
    then (domain, explicit)
    else if not (str_eq (suffix_in config) "")
    then (site_name ++ suffix_in config, bench_suffix)
    else if auto_detect_in config
    then detected site_name (detect_domain_suffix get)
    else (site_name, sitename_default)
