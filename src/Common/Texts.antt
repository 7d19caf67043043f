-- ===== src/Common/Texts.antt =====
-- Go strings are native texts.
use mathlib.Core.Path.{◌≡◌}
use mathlib.Core.Bool.{true, false}
use mathlib.Core.Logic.{◌≢◌}
use Prim.Native.String.{String}
use Prim.Native.Nat.{ℕ}
use Prim.Native.Char.{code}
use mathlib.Core.List.{List, [], ◌∷◌}
use frappe_operator.Common.Tests.{◌==◌, if◌then◌else◌}
use text.Mathlib.Text.{◌==◌ as str_eq}
use text.Mathlib.TextEquality.{eq_iff}
pub use text.Mathlib.Text.{◌==◌ as str_eq}
pub use text.Mathlib.TextEquality.{eq_iff}
pub use text.Mathlib.TextPositions.{eq_refl}

-- A text that is one literal is not another.
pub str_eq_other : (s a b : String) → str_eq a b ≡ false → str_eq s a ≡ true → str_eq s b ≡ false
str_eq_other s a b d h = rw ((eq_iff s a).0 h) d

pub str_ne : (s t : String) → str_eq s t ≡ false → s ≢ t
str_ne s t h e = cc ((eq_iff s t).1 e)

-- `strings.Split(s, sep)` for a separator of one character: never empty.
pub record Parts : Type 0 where
  pub first : String
  pub others : List String

unfoldable pub split : ℕ → String → Parts
split sep String.[] = record { first = ""; others = [] }
split sep (String.◌∷◌ c s) =
    let rest = split sep s in
    if code c == sep
    then record { first = ""; others = rest.first ∷ rest.others }
    else record { first = String.◌∷◌ c rest.first; others = rest.others }
