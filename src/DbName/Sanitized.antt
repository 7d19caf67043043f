-- ===== src/DbName/Sanitized.antt =====
-- What `sanitizeName` yields.
use Prim.Native.Char.{Char, code}
use frappe_operator.Common.{
  ◌≡◌, String, Bool, true, false, ◌&&◌, refl, arith, ◌==◌, if◌then◌else◌, Bool-cases, inl, inr, ap,
  ◌∙◌,
}
use frappe_operator.DbName.{
  is_word, is_nil, replace_other, collapse, trim_left, trim_right, sanitize_name, underscore,
}

-- Every character is a letter, a digit or an underscore.
abbrev pub IsSafe : String → Type 0
IsSafe String.[] = Unit
IsSafe (String.◌∷◌ c s) = (is_word (code c) ≡ true) × IsSafe s

-- No underscore follows an underscore, where one stands before the text if the flag is set.
abbrev pub IsSparse : Bool → String → Type 0
IsSparse seen String.[] = Unit
IsSparse seen (String.◌∷◌ c s) = (seen && code c == b'_' ≡ false) × IsSparse (code c == b'_') s

-- The first character is no underscore.
abbrev pub StartsPlain : String → Type 0
StartsPlain String.[] = Unit
StartsPlain (String.◌∷◌ c s) = code c == b'_' ≡ false

-- The last character is no underscore.
abbrev pub EndsPlain : String → Type 0
EndsPlain String.[] = Unit
EndsPlain (String.◌∷◌ c String.[]) = code c == b'_' ≡ false
EndsPlain (String.◌∷◌ c (String.◌∷◌ d s)) = EndsPlain (String.◌∷◌ d s)

module _ {ℓ} {A : Type ℓ} (x y : A) where
  pick-true : (b : Bool) → b ≡ true → (if b then x else y) ≡ x
  pick-true b h = rw h

  pick-false : (b : Bool) → b ≡ false → (if b then x else y) ≡ y
  pick-false b h = rw h

  last_kept : (b : Bool) → (if b && false then x else y) ≡ y
  last_kept true = refl
  last_kept false = refl

is_word-underscore : is_word (code underscore) ≡ true
is_word-underscore = refl

replace_other-IsSafe : (s : String) → IsSafe (replace_other s)
unfolding replace_other
replace_other-IsSafe String.[] = tt
replace_other-IsSafe (String.◌∷◌ c s) = elim (Bool-cases (is_word (code c))) [
  | inl word ↦ (
    ap (λ (d : Char). is_word (code d)) (pick-true c underscore _ word) ∙ word,
    replace_other-IsSafe s,
  )
  | inr other ↦ (
    ap (λ (d : Char). is_word (code d)) (pick-false c underscore _ other) ∙ is_word-underscore,
    replace_other-IsSafe s,
  )
]

collapse-IsSafe : (b : Bool) (s : String) → IsSafe s → IsSafe (collapse b s)
unfolding collapse
collapse-IsSafe b String.[] h = tt
collapse-IsSafe b (String.◌∷◌ c s) h = elim (Bool-cases (b && code c == b'_')) [
  | inl drop ↦ rw drop (collapse-IsSafe (code c == b'_') s h.1)
  | inr keep ↦ rw keep (h.0, collapse-IsSafe (code c == b'_') s h.1)
]

collapse-IsSparse : (b : Bool) (s : String) → IsSparse b (collapse b s)
unfolding collapse
collapse-IsSparse b String.[] = tt
collapse-IsSparse false (String.◌∷◌ c s) = (refl, collapse-IsSparse (code c == b'_') s)
collapse-IsSparse true (String.◌∷◌ c s) = elim (Bool-cases (code c == b'_')) [
  | inl drop ↦ rw drop (collapse-IsSparse true s)
  | inr keep ↦ rw keep (keep, rw keep (collapse-IsSparse false s))
]

trim_left-IsSafe : (s : String) → IsSafe s → IsSafe (trim_left s)
unfolding trim_left
trim_left-IsSafe String.[] h = tt
trim_left-IsSafe (String.◌∷◌ c s) h = elim (Bool-cases (code c == b'_')) [
  | inl drop ↦ rw drop (trim_left-IsSafe s h.1)
  | inr keep ↦ rw keep h
]

IsSparse-weaken : (b : Bool) (s : String) → IsSparse b s → IsSparse false s
IsSparse-weaken b String.[] h = tt
IsSparse-weaken b (String.◌∷◌ c s) h = (refl, h.1)

trim_left-IsSparse : (b : Bool) (s : String) → IsSparse b s → IsSparse false (trim_left s)
unfolding trim_left
trim_left-IsSparse b String.[] h = tt
trim_left-IsSparse b (String.◌∷◌ c s) h = elim (Bool-cases (code c == b'_')) [
  | inl drop ↦ rw drop (trim_left-IsSparse (code c == b'_') s h.1)
  | inr keep ↦ rw keep (refl, h.1)
]

trim_left-StartsPlain : (s : String) → StartsPlain (trim_left s)
unfolding trim_left
trim_left-StartsPlain String.[] = tt
trim_left-StartsPlain (String.◌∷◌ c s) = elim (Bool-cases (code c == b'_')) [
  | inl drop ↦ rw drop (trim_left-StartsPlain s)
  | inr keep ↦ rw keep keep
]

trim_right-IsSafe : (s : String) → IsSafe s → IsSafe (trim_right s)
unfolding trim_right
trim_right-IsSafe String.[] h = tt
trim_right-IsSafe (String.◌∷◌ c s) h = elim (Bool-cases (code c == b'_' && is_nil (trim_right s))) [
  | inl drop ↦ rw drop tt
  | inr keep ↦ rw keep (h.0, trim_right-IsSafe s h.1)
]

trim_right-IsSparse : (b : Bool) (s : String) → IsSparse b s → IsSparse b (trim_right s)
unfolding trim_right
trim_right-IsSparse b String.[] h = tt
trim_right-IsSparse b (String.◌∷◌ c s) h =
    elim (Bool-cases (code c == b'_' && is_nil (trim_right s))) [
      | inl drop ↦ rw drop tt
      | inr keep ↦ rw keep (h.0, trim_right-IsSparse (code c == b'_') s h.1)
    ]

trim_right-StartsPlain : (s : String) → StartsPlain s → StartsPlain (trim_right s)
unfolding trim_right
trim_right-StartsPlain String.[] h = tt
trim_right-StartsPlain (String.◌∷◌ c s) h =
    elim (Bool-cases (code c == b'_' && is_nil (trim_right s))) [
      | inl drop ↦ rw drop tt
      | inr keep ↦ rw keep h
    ]

EndsPlain-cons :
    (c : Char) (s : String)
    → code c == b'_' && is_nil s ≡ false
    → EndsPlain s
    → EndsPlain (String.◌∷◌ c s)
EndsPlain-cons c String.[] e h = ground arith
EndsPlain-cons c (String.◌∷◌ d s) e h = h

trim_right-EndsPlain : (s : String) → EndsPlain (trim_right s)
unfolding trim_right
trim_right-EndsPlain String.[] = tt
trim_right-EndsPlain (String.◌∷◌ c s) =
    elim (Bool-cases (code c == b'_' && is_nil (trim_right s))) [
      | inl drop ↦ rw drop tt
      | inr keep ↦ rw keep (EndsPlain-cons c (trim_right s) keep (trim_right-EndsPlain s))
    ]

-- A text that `sanitizeName` has nothing to do for.
pub record IsClean (s : String) : Type 0 where
  pub safe : IsSafe s
  pub sparse : IsSparse false s
  pub starts : StartsPlain s
  pub ends : EndsPlain s

-- A sanitized name holds letters, digits and underscores only, no two underscores in a row, and
-- none at its ends.
pub sanitize_name-IsClean : (s : String) → IsClean (sanitize_name s)
unfolding sanitize_name
sanitize_name-IsClean s = record {
  safe =
      trim_right-IsSafe _ (trim_left-IsSafe _ (collapse-IsSafe false _ (replace_other-IsSafe s)));
  sparse =
      trim_right-IsSparse false _
        (trim_left-IsSparse false _ (collapse-IsSparse false (replace_other s)));
  starts = trim_right-StartsPlain _ (trim_left-StartsPlain (collapse false (replace_other s)));
  ends = trim_right-EndsPlain (trim_left (collapse false (replace_other s)));
}

replace_other-fixed : (s : String) → IsSafe s → replace_other s ≡ s
unfolding replace_other
replace_other-fixed String.[] h = refl
replace_other-fixed (String.◌∷◌ c s) h = rw (h.0, replace_other-fixed s h.1)

collapse-fixed : (b : Bool) (s : String) → IsSparse b s → collapse b s ≡ s
unfolding collapse
collapse-fixed b String.[] h = refl
collapse-fixed b (String.◌∷◌ c s) h =
    rw h.0 (ap (String.◌∷◌ c) (collapse-fixed (code c == b'_') s h.1))

trim_left-fixed : (s : String) → StartsPlain s → trim_left s ≡ s
unfolding trim_left
trim_left-fixed String.[] h = refl
trim_left-fixed (String.◌∷◌ c s) h = rw h

trim_right-fixed : (s : String) → EndsPlain s → trim_right s ≡ s
unfolding trim_right
trim_right-fixed String.[] h = refl
trim_right-fixed (String.◌∷◌ c String.[]) h = rw h
trim_right-fixed (String.◌∷◌ c (String.◌∷◌ d s)) h =
    rw (trim_right-fixed (String.◌∷◌ d s) h) (last_kept _ _ (code c == b'_'))

-- A clean name is left as it is.
pub sanitize_name-fixed : (s : String) → IsClean s → sanitize_name s ≡ s
unfolding sanitize_name
sanitize_name-fixed s h =
    rw (replace_other-fixed s h.safe, collapse-fixed false s h.sparse, trim_left-fixed s h.starts)
      (trim_right-fixed s h.ends)

-- Sanitizing twice is sanitizing once.
pub sanitize_name_idem : (s : String) → sanitize_name (sanitize_name s) ≡ sanitize_name s
sanitize_name_idem s = sanitize_name-fixed (sanitize_name s) (sanitize_name-IsClean s)
