-- ===== src/DbName.antt =====
-- The database name of controllers/database/mariadb_provider.go: `generateDBName`,
-- `generateDBUser`, `sanitizeName` and `hashString`, with Go's `hash/fnv`, `regexp` and `strings`
-- calls written out. Texts are walked by characters. Names and namespaces of Kubernetes objects
-- are ASCII, so that their characters are the bytes that are hashed; a sanitized name is ASCII too.
pub mod Sanitized
pub mod Shape
mod Examples
use Prim.Native.Nat.{bit_xor}
use Prim.Native.Char.{Char, code}
use Prim.Native.String.{◌++◌}
use frappe_operator.Common.{
  ℕ, zero, suc, ◌+◌, ◌*◌, ◌%◌, ◌/◌, ◌^◌, String, Bool, true, false, ◌&&◌, ◌||◌, leb, ltb, ◌==◌,
  if◌then◌else◌,
}

abbrev pub underscore : Char
underscore = "_"

-- The class `[a-zA-Z0-9_]`.
abbrev pub is_word : ℕ → Bool
is_word c =
    (leb b'a' c && leb c b'z')
    || (leb b'A' c && leb c b'Z')
    || (leb b'0' c && leb c b'9')
    || c == b'_'

-- `[^a-zA-Z0-9_]` replaced by `_`.
pub replace_other : String → String
replace_other String.[] = ""
replace_other (String.◌∷◌ c s) =
    String.◌∷◌ (if is_word (code c) then c else underscore) (replace_other s)

-- `_{2,}` replaced by `_`; the flag says that the character before is an underscore.
pub collapse : Bool → String → String
collapse seen String.[] = ""
collapse seen (String.◌∷◌ c s) =
    let rest = collapse (code c == b'_') s in
    if seen && code c == b'_' then rest else String.◌∷◌ c rest

-- `strings.Trim(s, "_")`, the left side and the right.
pub trim_left : String → String
trim_left String.[] = ""
trim_left (String.◌∷◌ c s) =
    let rest = trim_left s in if code c == b'_' then rest else String.◌∷◌ c s

abbrev pub is_nil : String → Bool
is_nil String.[] = true
is_nil (String.◌∷◌ c s) = false

pub trim_right : String → String
trim_right String.[] = ""
trim_right (String.◌∷◌ c s) =
    let rest = trim_right s in if code c == b'_' && is_nil rest then "" else String.◌∷◌ c rest

unfoldable pub sanitize_name : String → String
unfolding replace_other collapse trim_left trim_right
sanitize_name name = trim_right (trim_left (collapse false (replace_other name)))

-- FNV-1a over 32 bits.
pub fnv1a : ℕ → String → ℕ
fnv1a h String.[] = h
fnv1a h (String.◌∷◌ c s) = fnv1a (bit_xor h (code c) * 16777619 % 2 ^ 32) s

-- A character of a table of digits.
unfoldable pub char_at : String → ℕ → Char
char_at String.[] n = "0"
char_at (String.◌∷◌ c s) zero = c
char_at (String.◌∷◌ c s) (suc n) = char_at s n

hex_digit : ℕ → Char
unfolding char_at
hex_digit = char_at "0123456789abcdef"

-- `%08x` of a number below 2 ^ 32: the digits at the places from `k` down.
pub hex : ℕ → ℕ → String
unfolding hex_digit
hex zero n = ""
hex (suc k) n = String.◌∷◌ (hex_digit (n / 16 ^ k % 16)) (hex k n)

unfoldable pub hash_string : String → String
unfolding fnv1a hex
hash_string s = hex 8 (fnv1a 2166136261 s)

-- `s[:n]`, for an ASCII text.
pub take : ℕ → String → String
take zero s = ""
take (suc n) String.[] = ""
take (suc n) (String.◌∷◌ c s) = String.◌∷◌ c (take n s)

-- `len(s)` of an ASCII text.
abbrev pub length : String → ℕ
length String.[] = 0
length (String.◌∷◌ c s) = suc (length s)

-- `fmt.Sprintf("_%s_%s", hash, safeName)`
pub full_name : String → String → String
full_name hash safe_name = String.◌∷◌ underscore (hash ++ String.◌∷◌ underscore safe_name)

unfoldable pub generate_db_name : String → String → String → String
unfolding full_name take
generate_db_name namespace name site_name =
    let db_name =
      full_name (take 8 (hash_string (namespace ++ ("/" ++ name)))) (sanitize_name site_name) in
    if ltb 64 (length db_name) then take 64 db_name else db_name

unfoldable pub generate_db_user : String → String → String → String
generate_db_user namespace name site_name = generate_db_name namespace name site_name
