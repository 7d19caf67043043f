-- ===== src/DbName/Shape.antt =====
-- What `generateDBName` yields: its length, its characters, and what it depends on.
use Prim.Native.Char.{code}
use Prim.Native.String.{◌++◌}
use frappe_operator.Common.{
  ℕ, zero, suc, ◌+◌, ◌≤◌, ◌%◌, ◌/◌, ◌^◌, ◌≡◌, String, true, refl, arith, ltb, if◌then◌else◌,
  Bool-cases, inl, inr, ap, ◌∙◌,
}
use frappe_operator.DbName.{
  is_word, char_at, fnv1a, hex, hash_string, sanitize_name, underscore, take, length, full_name,
  generate_db_name,
}
use text.Mathlib.TextLemmas.{nil-append, cons-append}
use frappe_operator.DbName.Sanitized.{IsSafe, sanitize_name-IsClean}

char_at-word : (t : String) (n : ℕ) → IsSafe t → is_word (code (char_at t n)) ≡ true
unfolding char_at
char_at-word String.[] n h = refl
char_at-word (String.◌∷◌ c t) zero h = h.0
char_at-word (String.◌∷◌ c t) (suc n) h = char_at-word t n h.1

digits-IsSafe : IsSafe "0123456789abcdef"
digits-IsSafe = (
  refl,
  (
    refl,
    (
      refl,
      (
        refl,
        (
          refl,
          (
            refl,
            (refl, (refl, (refl, (refl, (refl, (refl, (refl, (refl, (refl, (refl, tt)))))))))),
          ),
        ),
      ),
    ),
  ),
)

hex-IsSafe : (k n : ℕ) → IsSafe (hex k n)
unfolding hex
hex-IsSafe zero n = tt
hex-IsSafe (suc k) n =
    (char_at-word "0123456789abcdef" (n / 16 ^ k % 16) digits-IsSafe, hex-IsSafe k n)

length-hex : (k n : ℕ) → length (hex k n) ≡ k
unfolding hex
length-hex zero n = refl
length-hex (suc k) n = ap suc (length-hex k n)

length-take : (n : ℕ) (s : String) → length (take n s) ≤ n
unfolding take
length-take zero s = omega arith
length-take (suc n) String.[] = omega arith
length-take (suc n) (String.◌∷◌ c s) = omega (arith, length-take n s)

take-IsSafe : (n : ℕ) (s : String) → IsSafe s → IsSafe (take n s)
unfolding take
take-IsSafe zero s h = tt
take-IsSafe (suc n) String.[] h = tt
take-IsSafe (suc n) (String.◌∷◌ c s) h = (h.0, take-IsSafe n s h.1)

append-IsSafe : (s t : String) → IsSafe s → IsSafe t → IsSafe (s ++ t)
append-IsSafe String.[] t h k = rw nil-append k
append-IsSafe (String.◌∷◌ c s) t h k = rw cons-append (h.0, append-IsSafe s t h.1 k)

take_all : (n : ℕ) (s : String) → length s ≡ n → take n s ≡ s
unfolding take
take_all zero String.[] h = refl
take_all zero (String.◌∷◌ c s) h = absurd (omega arith)
take_all (suc n) String.[] h = refl
take_all (suc n) (String.◌∷◌ c s) h = ap (String.◌∷◌ c) (take_all n s (omega arith))

-- The hash is eight hexadecimal digits.
pub length-hash_string : (s : String) → length (hash_string s) ≡ 8
unfolding hash_string
length-hash_string s = length-hex 8 (fnv1a 2166136261 s)

hash_string-IsSafe : (s : String) → IsSafe (hash_string s)
unfolding hash_string
hash_string-IsSafe s = hex-IsSafe 8 (fnv1a 2166136261 s)

take-take : (k n : ℕ) (s : String) → k ≤ n → take k (take n s) ≡ take k s
unfolding take
take-take zero n s h = refl
take-take (suc k) zero s h = absurd (omega arith)
take-take (suc k) (suc n) String.[] h = refl
take-take (suc k) (suc n) (String.◌∷◌ c s) h = ap (String.◌∷◌ c) (take-take k n s (omega arith))

take-append : (k n : ℕ) (s t : String) → n ≡ length s + k → take n (s ++ t) ≡ s ++ take k t
unfolding take
take-append k n String.[] t e =
    rw nil-append (rw nil-append (ap (λ (m : ℕ). take m t) {x = n} {y = k} (omega arith)))
take-append k zero (String.◌∷◌ c s) t e = absurd (omega arith)
take-append k (suc n) (String.◌∷◌ c s) t e =
    rw cons-append (rw cons-append (ap (String.◌∷◌ c) (take-append k n s t (omega arith))))

take-full_name :
    (h t : String) → length h ≡ 8 → take 10 (full_name h t) ≡ String.◌∷◌ underscore (h ++ "_")
unfolding full_name take
take-full_name h t e =
    ap (String.◌∷◌ underscore) (take-append 1 9 h (String.◌∷◌ underscore t) (omega arith))

-- The slice `[:8]` of the hash is all of it.
whole : (s : String) → take 8 (hash_string s) ≡ hash_string s
whole s = take_all 8 (hash_string s) (length-hash_string s)

full_name-IsSafe : (h t : String) → IsSafe h → IsSafe t → IsSafe (full_name h t)
unfolding full_name
full_name-IsSafe h t p q = (refl, append-IsSafe h _ p (refl, q))

truncate : String → String
truncate s = if ltb 64 (length s) then take 64 s else s

length-truncate : (s : String) → length (truncate s) ≤ 64
unfolding truncate
length-truncate s = ground (arith, length-take 64 s)

truncate-IsSafe : (s : String) → IsSafe s → IsSafe (truncate s)
unfolding truncate
truncate-IsSafe s h = elim (Bool-cases (ltb 64 (length s))) [
  | inl long ↦ rw long (take-IsSafe 64 s h)
  | inr short ↦ rw short h
]

take-truncate : (k : ℕ) (s : String) → k ≤ 64 → take k (truncate s) ≡ take k s
unfolding truncate
take-truncate k s h = elim (Bool-cases (ltb 64 (length s))) [
  | inl long ↦ rw long (take-take k 64 s h)
  | inr short ↦ rw short
]

module _ (namespace name site_name : String) where
  -- A database name has at most 64 characters, all of them letters, digits and underscores.
  pub generate_db_name_bounds :
      (length (generate_db_name namespace name site_name) ≤ 64)
      × IsSafe (generate_db_name namespace name site_name)
  unfolding generate_db_name truncate
  generate_db_name_bounds = (
    length-truncate
        (full_name (take 8 (hash_string (namespace ++ ("/" ++ name)))) (sanitize_name site_name)),
    truncate-IsSafe
        (full_name (take 8 (hash_string (namespace ++ ("/" ++ name)))) (sanitize_name site_name))
        (full_name-IsSafe _ _ (take-IsSafe 8 _ (hash_string-IsSafe (namespace ++ ("/" ++ name))))
          (sanitize_name-IsClean site_name).safe),
  )

  -- Every database name begins with `_`, the hash of its site's namespace and name, and `_`.
  pub generate_db_name-prefix :
      take 10 (generate_db_name namespace name site_name)
      ≡ String.◌∷◌ underscore (hash_string (namespace ++ ("/" ++ name)) ++ "_")
  unfolding generate_db_name truncate
  generate_db_name-prefix =
      take-truncate 10
        (full_name (take 8 (hash_string (namespace ++ ("/" ++ name)))) (sanitize_name site_name))
        (omega arith)
      ∙ take-full_name (take 8 (hash_string (namespace ++ ("/" ++ name)))) (sanitize_name site_name)
          (ap length (whole (namespace ++ ("/" ++ name)))
            ∙ length-hash_string (namespace ++ ("/" ++ name)))
      ∙ ap (λ (h : String). String.◌∷◌ underscore (h ++ "_")) (whole (namespace ++ ("/" ++ name)))
