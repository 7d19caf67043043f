-- ===== src/Storage/Modes.antt =====
-- That the access mode is the one that the provisioner allows.
use Prim.Native.Char.{code}
use mathlib.Core.List.{◌++◌ as ◌+++◌, Memᴰ}
use mathlib.Core.Bool.{false≢true}
use frappe_operator.Common.{
  ℕ, ◌≡◌, ◌⊎◌, inl, inr, refl, sym, ◌∙◌, ap, String, Bool, true, false, ◌||◌, ◌&&◌, Bool-cases,
  List, [], ◌∷◌, ◌==◌, arith,
}
use frappe_operator.Kube.{StorageClass}
use frappe_operator.Storage.{
  to_lower, lower_begins, lower_contains, contains_any, storage_class_supports_rwx, mode_of,
}
use frappe_operator.Storage.Spec.{lowered, codes, Contains, IsModeFor}

or_true : (a b : Bool) → (a ≡ true) ⊎ (b ≡ true) → a || b ≡ true
or_true true b e = refl
or_true false b (inl e) = absurd (false≢true e)
or_true false b (inr e) = e

or_cases : (a b : Bool) → a || b ≡ true → (a ≡ true) ⊎ (b ≡ true)
or_cases true b e = inl refl
or_cases false b e = inr e

and_cases : (a b : Bool) → a && b ≡ true → (a ≡ true) × (b ≡ true)
and_cases true b e = (refl, e)
and_cases false b e = absurd (false≢true e)

begins-lowered :
    (p s : String) → lower_begins p s ≡ true → (after : List ℕ) × (lowered s ≡ codes p +++ after)
unfolding lower_begins lowered codes
begins-lowered String.[] s e = (lowered s, refl)
begins-lowered (String.◌∷◌ d p) String.[] e = absurd (false≢true e)
begins-lowered (String.◌∷◌ d p) (String.◌∷◌ c s) e =
    let (x, y) = and_cases (to_lower (code c) == code d) (lower_begins p s) e in
    let same : to_lower (code c) ≡ code d = ground arith in
    let (after, q) = begins-lowered p s y in
    (
      after,
      ap (λ (l : List ℕ). to_lower (code c) ∷ l) q ∙ ap (λ (n : ℕ). n ∷ (codes p +++ after)) same,
    )

lowered-begins :
    (p s : String) (after : List ℕ) → lowered s ≡ codes p +++ after → lower_begins p s ≡ true
unfolding lower_begins lowered codes
lowered-begins String.[] s after e = refl
lowered-begins (String.◌∷◌ d p) String.[] after e = absurd cc
lowered-begins (String.◌∷◌ d p) (String.◌∷◌ c s) after e =
    let same : to_lower (code c) ≡ code d = cc in
    let rest = lowered-begins p s after cc in ground (arith, same, rest)

lower_contains-Contains : (p s : String) → lower_contains p s ≡ true → Contains s p
unfolding lower_contains lowered
lower_contains-Contains p String.[] e = let (after, q) = begins-lowered p "" e in ([], after, q)
lower_contains-Contains p (String.◌∷◌ c s) e =
    elim (or_cases (lower_begins p (String.◌∷◌ c s)) (lower_contains p s) e) [
      | inl y ↦ let (after, q) = begins-lowered p (String.◌∷◌ c s) y in ([], after, q)
      | inr y ↦
          let (before, after, q) = lower_contains-Contains p s y in
          (to_lower (code c) ∷ before, after, ap (λ (l : List ℕ). to_lower (code c) ∷ l) q)
    ]

Contains-lower_contains :
    (p s : String) (before after : List ℕ)
    → lowered s ≡ before +++ (codes p +++ after)
    → lower_contains p s ≡ true
unfolding lower_contains lowered
Contains-lower_contains p String.[] [] after e = lowered-begins p "" after e
Contains-lower_contains p String.[] (x ∷ before) after e = absurd cc
Contains-lower_contains p (String.◌∷◌ c s) [] after e =
    or_true _ _ (inl (lowered-begins p (String.◌∷◌ c s) after e))
Contains-lower_contains p (String.◌∷◌ c s) (x ∷ before) after e =
    or_true (lower_begins p (String.◌∷◌ c s)) _ (inr (Contains-lower_contains p s before after cc))

any-Contains :
    (ps : List String) (s : String)
    → contains_any ps s ≡ true
    → (p : String) × Memᴰ p ps × Contains s p
unfolding contains_any
any-Contains [] s e = absurd (false≢true e)
any-Contains (p ∷ ps) s e = elim (or_cases (lower_contains p s) (contains_any ps s) e) [
  | inl y ↦ (p, Memᴰ.head refl, lower_contains-Contains p s y)
  | inr y ↦ let (q, m, k) = any-Contains ps s y in (q, Memᴰ.tail m, k)
]

Contains-any :
    (ps : List String) (s p : String) → Memᴰ p ps → Contains s p → contains_any ps s ≡ true
unfolding contains_any
Contains-any [] s p m k = elim m [ ]
Contains-any (q ∷ ps) s p (Memᴰ.head e) (before, after, k) =
    or_true _ _ (inl (Contains-lower_contains q s before after (rw (← e) k)))
Contains-any (q ∷ ps) s p (Memᴰ.tail m) k =
    or_true (lower_contains q s) _ (inr (Contains-any ps s p m k))

pub mode_of-IsModeFor : (sc : StorageClass) → IsModeFor sc (mode_of sc)
unfolding storage_class_supports_rwx
mode_of-IsModeFor sc = elim (Bool-cases (storage_class_supports_rwx sc)) [
  | inl y ↦ inl (any-Contains _ sc.provisioner y, rw y refl)
  | inr n ↦ inr (λ (p, m, k). false≢true (sym n ∙ Contains-any _ sc.provisioner p m k), rw n refl)
]
