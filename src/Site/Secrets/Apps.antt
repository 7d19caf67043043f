-- ===== src/Site/Secrets/Apps.antt =====
-- The apps that a site asks for, as the initialisation script gets them.
use Prim.Native.Char.{Char, code}
use Prim.Native.String.{◌++◌}
use text.Mathlib.TextLemmas.{nil-append, cons-append}
use frappe_operator.Common.{
  ◌≡◌, ◌≢◌, refl, ap, ◌∙◌, String, Bool, true, false, ◌&&◌, List, [], ◌∷◌, ◌==◌, Parts, split, All,
  Bool-cases, inl, inr, arith,
}
use frappe_operator.Site.Secrets.{is_app_char, is_valid_app, valid_apps, join, apps_to_install}

-- The parts of a text, as one list.
abbrev pub parts : Parts → List String
parts p = p.first ∷ p.others

app_char-plain : (c : Char) → is_app_char (code c) ≡ true → (code c == b' ') ≡ false
app_char-plain c h = ground arith

both : (a b : Bool) → a && b ≡ true → (a ≡ true) × (b ≡ true)
both true b h = (refl, h)
both false b h = ground arith

-- A valid app, alone or in front of a space, is the first part.
split-valid :
    (s : String) → is_valid_app s ≡ true → split b' ' s ≡ record { first = s; others = [] }
unfolding split is_valid_app
split-valid String.[] h = refl
split-valid (String.◌∷◌ c s) h =
    let (good, rest) = both (is_app_char (code c)) (is_valid_app s) h in
    rw (app_char-plain c good, split-valid s rest) refl

split-valid-space :
    (s t : String)
    → is_valid_app s ≡ true
    → split b' ' (s ++ (" " ++ t)) ≡ record { first = s; others = parts (split b' ' t) }
unfolding split is_valid_app
split-valid-space String.[] t h =
    rw (nil-append (" " ++ t), cons-append " " String.[] t, nil-append t) refl
split-valid-space (String.◌∷◌ c s) t h =
    let (good, rest) = both (is_app_char (code c)) (is_valid_app s) h in
    rw (cons-append c s (" " ++ t), app_char-plain c good, split-valid-space s t rest) refl

split-join :
    (app : String) (apps : List String)
    → is_valid_app app ≡ true
    → All (λ a. is_valid_app a ≡ true) apps
    → parts (split b' ' (join (app ∷ apps))) ≡ app ∷ apps
unfolding join
split-join app [] p ps = ap parts (split-valid app p)
split-join app (next ∷ apps) p ps =
    ap parts (split-valid-space app (join (next ∷ apps)) p)
    ∙ ap (λ (l : List String). app ∷ l) (split-join next apps ps.0 ps.1)

valid_apps-All : (apps : List String) → All (λ a. is_valid_app a ≡ true) (valid_apps apps)
unfolding valid_apps
valid_apps-All [] = tt
valid_apps-All (app ∷ apps) = elim (Bool-cases (is_valid_app app)) [
  | inl good ↦ rw good (good, valid_apps-All apps)
  | inr bad ↦ rw bad (valid_apps-All apps)
]

split-join_every :
    (apps : List String)
    → apps ≢ []
    → All (λ a. is_valid_app a ≡ true) apps
    → parts (split b' ' (join apps)) ≡ apps
split-join_every [] ne ps = absurd (ne refl)
split-join_every (app ∷ apps) ne ps = split-join app apps ps.0 ps.1

-- If any of the apps is valid, the text that the initialisation script gets, split at its spaces, is
-- the list of the valid apps in their order: an invalid name cannot change how the others are read.
pub split-apps_to_install :
    (apps : List String)
    → valid_apps apps ≢ []
    → parts (split b' ' (apps_to_install apps)) ≡ valid_apps apps
unfolding apps_to_install
split-apps_to_install apps ne = split-join_every (valid_apps apps) ne (valid_apps-All apps)
