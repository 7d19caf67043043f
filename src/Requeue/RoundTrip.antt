-- ===== src/Requeue/RoundTrip.antt =====
-- The counter that was written is the counter that is read.
use Prim.Native.Char.{code}
use frappe_operator.Common.{
  ℕ, zero, suc, ◌+◌, ◌*◌, ◌-◌, ◌/◌, ◌%◌, ◌^◌, ◌<◌, ◌≡◌, refl, ap, ◌∙◌, String, true, false, some,
  List, [], ◌∷◌, ltb, ◌==◌, str_eq, eq_refl, Bool-cases, inl, inr, arith,
}
use frappe_operator.Common.Int.{pos}
use frappe_operator.Types.{Site}
use frappe_operator.Kube.{lookup}
use frappe_operator.DbName.{char_at}
use frappe_operator.Requeue.{
  attempt_key, digit, render, itoa, is_digit, read_digits, read_number, within, atoi, attempt_of,
  attempt_in, get_requeue_attempt, insert, with_requeue_attempt,
}

code-digit : (d : ℕ) → d < 10 → code (digit d) ≡ b'0' + d
unfolding digit char_at
code-digit zero h = refl
code-digit (suc zero) h = refl
code-digit (suc (suc zero)) h = refl
code-digit (suc (suc (suc zero))) h = refl
code-digit (suc (suc (suc (suc zero)))) h = refl
code-digit (suc (suc (suc (suc (suc zero))))) h = refl
code-digit (suc (suc (suc (suc (suc (suc zero)))))) h = refl
code-digit (suc (suc (suc (suc (suc (suc (suc zero))))))) h = refl
code-digit (suc (suc (suc (suc (suc (suc (suc (suc zero)))))))) h = refl
code-digit (suc (suc (suc (suc (suc (suc (suc (suc (suc zero))))))))) h = refl
code-digit (suc (suc (suc (suc (suc (suc (suc (suc (suc (suc d)))))))))) h = absurd (omega arith)

is_digit-digit : (d : ℕ) → d < 10 → is_digit (digit d) ≡ true
is_digit-digit d h = rw (code-digit d h) (ground arith)

value-digit : (v d : ℕ) → d < 10 → v * 10 + (code (digit d) - b'0') ≡ v * 10 + d
value-digit v d h = rw (code-digit d h) (omega arith)

read_digits-digit :
    (v d : ℕ) (s : String)
    → d < 10
    → read_digits v (String.◌∷◌ (digit d) s) ≡ read_digits (v * 10 + d) s
unfolding read_digits
read_digits-digit v d s h =
    rw (is_digit-digit d h) (ap (λ (m : ℕ). read_digits m s) (value-digit v d h))

read_digits-render :
    (fuel n : ℕ) (rest : String)
    → n < fuel
    → read_digits 0 (render fuel n rest) ≡ read_digits n rest
unfolding render
read_digits-render zero n rest h = absurd (omega arith)
read_digits-render (suc fuel) n rest h = elim (Bool-cases (ltb n 10)) [
  | inl small ↦
      rw small (
        read_digits-digit 0 n rest (ground arith)
        ∙ ap (λ (m : ℕ). read_digits m rest) (omega arith))
  | inr large ↦ rw large (
      read_digits-render fuel (n / 10) _ (ground arith)
      ∙ read_digits-digit (n / 10) (n % 10) rest (omega arith)
      ∙ ap (λ (m : ℕ). read_digits m rest) (omega arith))
]

-- A text that begins with a digit.
abbrev StartsDigit : String → Type 0
StartsDigit String.[] = ⊥
StartsDigit (String.◌∷◌ c s) = is_digit c ≡ true

render-StartsDigit : (fuel n : ℕ) (rest : String) → n < fuel → StartsDigit (render fuel n rest)
unfolding render
render-StartsDigit zero n rest h = absurd (omega arith)
render-StartsDigit (suc fuel) n rest h = elim (Bool-cases (ltb n 10)) [
  | inl small ↦ rw small (is_digit-digit n (ground arith))
  | inr large ↦ rw large (render-StartsDigit fuel (n / 10) _ (ground arith))
]

atoi-digits :
    (s : String) (n : ℕ)
    → StartsDigit s
    → read_digits 0 s ≡ some n
    → n < 2 ^ 63
    → atoi s ≡ some (pos n)
unfolding atoi read_number within
atoi-digits String.[] n d r h = absurd d
atoi-digits (String.◌∷◌ c s) n d r h =
    let minus : (code c == b'-') ≡ false = ground arith in
    let plus : (code c == b'+') ≡ false = ground arith in
    let small : ltb n (2 ^ 63) ≡ true = ground arith in rw (minus, plus, r, small) refl

-- A number below 2 ^ 63 that is written out is read back.
pub atoi-itoa : (n : ℕ) → n < 2 ^ 63 → atoi (itoa n) ≡ some (pos n)
unfolding itoa read_digits
atoi-itoa n h =
    atoi-digits (render (suc n) n "") n (render-StartsDigit (suc n) n "" (omega arith))
      (read_digits-render (suc n) n "" (omega arith)) h

lookup-insert : (k v : String) (m : List (String × String)) → lookup k (insert k v m) ≡ some v
unfolding lookup insert
lookup-insert k v [] = rw (eq_refl k) refl
lookup-insert k v ((j, w) ∷ m) = elim (Bool-cases (str_eq j k)) [
  | inl same ↦ rw same (rw (eq_refl k) refl)
  | inr other ↦ rw other (rw other (lookup-insert k v m))
]

-- The attempt that is written is the one that the next reconciliation reads, whatever annotations
-- the site has, if it is below 2 ^ 63.
pub get_requeue_attempt-with_requeue_attempt :
    (n : ℕ) (site : Site) → n < 2 ^ 63 → get_requeue_attempt (with_requeue_attempt n site) ≡ n
unfolding get_requeue_attempt with_requeue_attempt attempt_in attempt_of
get_requeue_attempt-with_requeue_attempt n site h =
    rw (lookup-insert attempt_key (itoa n) site.annotations, atoi-itoa n h) refl
