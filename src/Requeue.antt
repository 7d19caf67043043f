-- ===== src/Requeue.antt =====
-- The attempt counter of a site that waits: `getRequeueAttempt` and `patchRequeueAttempt` of
-- controllers/site_lifecycle.go, with Go's `strconv.Itoa` and `strconv.Atoi` written out.
pub mod RoundTrip
use Prim.Native.Char.{Char, code}
use frappe_operator.Common.{
  ℕ, zero, suc, ◌+◌, ◌*◌, ◌-◌, ◌/◌, ◌%◌, ◌^◌, String, Bool, true, false, ◌&&◌, ◌||◌, Option, none,
  some, List, [], ◌∷◌, leb, ltb, ◌==◌, str_eq, if◌then◌else◌,
}
use frappe_operator.Common.Int.{ℤ, pos, negsuc}
use frappe_operator.Types.{Site}
use frappe_operator.Kube.{lookup}
use frappe_operator.DbName.{char_at}

abbrev pub attempt_key : String
attempt_key = "frappe.vyogo.tech/requeue-attempt"

digit : ℕ → Char
unfolding char_at
digit = char_at "0123456789"

-- The digits of `n` before those in `rest`. The fuel is more than `n`, and each step divides by ten.
render : ℕ → ℕ → String → String
unfolding digit
render zero n rest = rest
render (suc fuel) n rest =
    let more = render fuel (n / 10) (String.◌∷◌ (digit (n % 10)) rest) in
    if ltb n 10 then String.◌∷◌ (digit n) rest else more

-- `strconv.Itoa` of a number that is not negative.
unfoldable pub itoa : ℕ → String
unfolding render
itoa n = render (suc n) n ""

abbrev is_digit : Char → Bool
is_digit c = leb b'0' (code c) && leb (code c) b'9'

-- The value of the digits after those with the value `v`.
read_digits : ℕ → String → Option ℕ
read_digits v String.[] = some v
read_digits v (String.◌∷◌ c s) =
    let rest = read_digits (v * 10 + (code c - b'0')) s in if is_digit c then rest else none

-- The value of a text of at least one digit.
read_number : String → Option ℕ
unfolding read_digits
read_number String.[] = none
read_number (String.◌∷◌ c s) = read_digits 0 (String.◌∷◌ c s)

-- Values outside of `int64` are errors.
within : ℕ → (ℕ → ℤ) → Option ℕ → Option ℤ
within bound f none = none
within bound f (some n) = if ltb n bound then some (f n) else none

abbrev negate : ℕ → ℤ
negate zero = pos 0
negate (suc n) = negsuc n

-- `strconv.Atoi`; `none` is its error.
unfoldable pub atoi : String → Option ℤ
unfolding read_number within
atoi String.[] = none
atoi (String.◌∷◌ c s) =
    if code c == b'-'
    then within (2 ^ 63 + 1) negate (read_number s)
    else if code c == b'+'
    then within (2 ^ 63) pos (read_number s)
    else within (2 ^ 63) pos (read_number (String.◌∷◌ c s))

-- An error and a negative value count as 0.
attempt_of : Option ℤ → ℕ
attempt_of none = 0
attempt_of (some (pos n)) = n
attempt_of (some (negsuc n)) = 0

attempt_in : Option String → ℕ
unfolding attempt_of
attempt_in none = 0
attempt_in (some text) = attempt_of (atoi text)

unfoldable pub get_requeue_attempt : Site → ℕ
unfolding attempt_in
get_requeue_attempt site = attempt_in (lookup attempt_key site.annotations)

-- `m[k] = v`
pub insert : String → String → List (String × String) → List (String × String)
insert k v [] = (k, v) ∷ []
insert k v ((j, w) ∷ m) = if str_eq j k then (k, v) ∷ m else (j, w) ∷ insert k v m

-- The site as the patch of `patchRequeueAttempt` makes it.
unfoldable pub with_requeue_attempt : ℕ → Site → Site
unfolding insert
with_requeue_attempt n site = record site {
  annotations = insert attempt_key (itoa n) site.annotations;
}
