-- ===== src/Domain/Suffix.antt =====
-- What `extractDomainSuffix` yields.
use Prim.Native.Char.{Char, code}
use Prim.Native.String.{◌++◌}
use text.Mathlib.TextEquality.{Char-path}
use text.Mathlib.TextLemmas.{nil-append, cons-append, append_assoc}
use frappe_operator.Common.{
  ◌≡◌, ◌≢◌, String, true, false, Option, none, some, List, [], ◌∷◌, refl, sym, ap, ◌∙◌, arith, ◌==◌,
  ◌||◌, str_eq, split, Bool-cases, inl, inr,
}
use mathlib.Core.Path.{subst}
use frappe_operator.Domain.{
  trim_prefix, contains, is_ip_address, last_two, join_two, suffix_of_host, extract_domain_suffix,
}

abbrev dot : Char
dot = "."

-- `strings.Join(parts, ".")`
abbrev pub join : String → List String → String
join a [] = a
join a (b ∷ rest) = a ++ String.◌∷◌ dot (join b rest)

char_of_code : (c : Char) → (code c == b'.') ≡ true → c ≡ dot
char_of_code c h = Char-path c dot (ground arith)

-- No character is a dot.
abbrev pub HasNoDot : String → Type 0
HasNoDot String.[] = Unit
HasNoDot (String.◌∷◌ c s) = ((code c == b'.') ≡ false) × HasNoDot s

abbrev pub AllHaveNoDot : List String → Type 0
AllHaveNoDot [] = Unit
AllHaveNoDot (s ∷ ss) = HasNoDot s × AllHaveNoDot ss

pub split-HasNoDot :
    (s : String) → HasNoDot (split b'.' s).first × AllHaveNoDot (split b'.' s).others
unfolding split
split-HasNoDot String.[] = (tt, tt)
split-HasNoDot (String.◌∷◌ c s) = elim (Bool-cases (code c == b'.')) [
  | inl sep ↦ rw sep (tt, split-HasNoDot s)
  | inr other ↦ rw other ((other, (split-HasNoDot s).0), (split-HasNoDot s).1)
]

join-cons :
    (c : Char) (a : String) (rest : List String)
    → join (String.◌∷◌ c a) rest ≡ String.◌∷◌ c (join a rest)
join-cons c a [] = refl
join-cons c a (b ∷ rest) = cons-append c a (String.◌∷◌ dot (join b rest))

-- Joining what was split gives the text back.
pub join-split : (s : String) → join (split b'.' s).first (split b'.' s).others ≡ s
unfolding split
join-split String.[] = refl
join-split (String.◌∷◌ c s) = elim (Bool-cases (code c == b'.')) [
  | inl sep ↦ rw sep (
      nil-append (String.◌∷◌ dot (join (split b'.' s).first (split b'.' s).others))
      ∙ ap (String.◌∷◌ dot) (join-split s)
      ∙ ap (λ (d : Char). String.◌∷◌ d s) (sym (char_of_code c sep)))
  | inr other ↦
      rw other
        (join-cons c (split b'.' s).first (split b'.' s).others ∙ ap (String.◌∷◌ c) (join-split s))
]

module _ {a b x y : String}
    (h : ◌≡◌ {A = Option (String × String)} (some (a, b)) (some (x, y))) where
  head_eq : a ≡ x
  head_eq = cc

  second_eq : b ≡ y
  second_eq = cc

-- The last two parts stand at the end of the joined text.
record EndsIn (a : String) (rest : List String) (x y : String) : Type 0 where
  front : String
  whole : String.◌∷◌ dot (join a rest) ≡ front ++ String.◌∷◌ dot (x ++ String.◌∷◌ dot y)

last_two-EndsIn :
    (a : String) (rest : List String) (x y : String)
    → last_two a rest ≡ some (x, y)
    → EndsIn a rest x y
unfolding last_two
last_two-EndsIn a [] x y h = cc
last_two-EndsIn a (b ∷ []) x y h = record {
  front = "";
  whole = rw nil-append (rw (head_eq h, second_eq h));
}
last_two-EndsIn a (b ∷ c ∷ rest) x y h =
    let ih = last_two-EndsIn b (c ∷ rest) x y h in
    record {
      front = String.◌∷◌ dot (a ++ ih.front);
      whole =
          ap (λ (t : String). String.◌∷◌ dot (a ++ t)) ih.whole
          ∙ sym (
              cons-append dot (a ++ ih.front) (String.◌∷◌ dot (x ++ String.◌∷◌ dot y))
              ∙ ap (String.◌∷◌ dot)
                  (append_assoc a ih.front (String.◌∷◌ dot (x ++ String.◌∷◌ dot y))));
    }

last_two-HasNoDot :
    (a : String) (rest : List String) (x y : String)
    → last_two a rest ≡ some (x, y)
    → HasNoDot a
    → AllHaveNoDot rest
    → HasNoDot x × HasNoDot y
unfolding last_two
last_two-HasNoDot a [] x y h p ps = cc
last_two-HasNoDot a (b ∷ []) x y h p ps =
    (subst HasNoDot (head_eq h) p, subst HasNoDot (second_eq h) ps.0)
last_two-HasNoDot a (b ∷ c ∷ rest) x y h p ps = last_two-HasNoDot b (c ∷ rest) x y h ps.0 ps.1

-- The hostname without a leading `*` and then a leading dot.
abbrev pub bare : String → String
bare h = trim_prefix b'.' (trim_prefix b'*' h)

-- A suffix of a host that is no IP address and has no port: a dot and the last two labels.
pub record IsSuffixOf (host r : String) : Type 0 where
  pub front : String
  pub domain : String
  pub tld : String
  pub shape : r ≡ "." ++ (domain ++ ("." ++ tld))
  pub at_end : String.◌∷◌ dot host ≡ front ++ r
  pub domain_plain : HasNoDot domain
  pub tld_plain : HasNoDot tld
  pub plain_host : (contains b':' host || is_ip_address host) ≡ false

-- A dot in front, as an append.
dot_append : (s : String) → "." ++ s ≡ String.◌∷◌ dot s
dot_append s = cons-append dot "" s ∙ ap (String.◌∷◌ dot) (nil-append s)

module _ (host : String) (plain : (contains b':' host || is_ip_address host) ≡ false) where
  IsSuffixOf-parts :
      (o : Option (String × String))
      → last_two (split b'.' host).first (split b'.' host).others ≡ o
      → join_two o ≢ ""
      → IsSuffixOf host (join_two o)
  unfolding join_two
  IsSuffixOf-parts none e ne = absurd (ne refl)
  IsSuffixOf-parts (some (x, y)) e ne =
      let (px, py) = last_two-HasNoDot _ _ x y e (split-HasNoDot host).0 (split-HasNoDot host).1 in
      let ends = last_two-EndsIn _ _ x y e in
      record {
        front = ends.front;
        domain = x;
        tld = y;
        shape = refl;
        at_end =
            ap (String.◌∷◌ dot) (sym (join-split host))
            ∙ ends.whole
            ∙ ap (λ (t : String). ends.front ++ t)
                (sym (
                  dot_append (x ++ ("." ++ y))
                  ∙ ap (λ (t : String). String.◌∷◌ dot (x ++ t)) (dot_append y)));
        domain_plain = px;
        tld_plain = py;
        plain_host = plain;
      }

suffix_of_host-IsSuffixOf :
    (host : String) → suffix_of_host host ≢ "" → IsSuffixOf host (suffix_of_host host)
unfolding suffix_of_host
suffix_of_host-IsSuffixOf host ne = elim (Bool-cases (contains b':' host || is_ip_address host)) [
  | inl bad ↦ absurd (ne (rw bad))
  | inr plain ↦ rw plain (IsSuffixOf-parts host plain _ refl (rw plain at ne))
]

-- A result that is not empty is a dot and the last two labels of the hostname, without a leading
-- `*` and then a leading dot; that hostname is no IP address and holds no colon.
pub extract_domain_suffix-IsSuffixOf :
    (h : String) → extract_domain_suffix h ≢ "" → IsSuffixOf (bare h) (extract_domain_suffix h)
unfolding extract_domain_suffix
extract_domain_suffix-IsSuffixOf h ne = elim (Bool-cases (str_eq h "")) [
  | inl empty ↦ absurd (ne (rw empty))
  | inr full ↦ rw full (suffix_of_host-IsSuffixOf (bare h) (rw full at ne))
]
