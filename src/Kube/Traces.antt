-- ===== src/Kube/Traces.antt =====
-- What a handler writes: a predicate on actions with one rule for each way to build an action.
use frappe_operator.Common.{
  ◌≡◌, refl, sym, ◌∙◌, ap, Bool, true, false, Option, none, some, List, [], ◌∷◌, ◌++◌, append_assoc,
  All, if◌then◌else◌, arith,
}
use frappe_operator.Types.{NamespacedName}
use frappe_operator.Kube.{
  Err, Result, ok, err, panic, Call, History, Api, M, pure, raise, nil_dereference, continue, ◌>>=◌,
  ask, attempt, check, set_owner, try_result, try,
}

-- The history grows by calls that all satisfy `P`.
pub record Grows (P : Call → Type 0) (before after : History) : Type 0 where
  pub fresh : List Call
  pub order : after ≡ fresh ++ before
  pub all : All P fresh

pub record Emits {A : Type 0} (P : Call → Type 0) (m : M A) : Type 0 where
  pub run : (a : Api) (h : History) → Grows P h (m a h).1

All-append : (P : Call → Type 0) (xs ys : List Call) → All P xs → All P ys → All P (xs ++ ys)
All-append P [] ys p q = q
All-append P (x ∷ xs) ys p q = (p.0, All-append P xs ys p.1 q)

module _ {P : Call → Type 0} where
  pub Grows-refl : (h : History) → Grows P h h
  Grows-refl h = record { fresh = []; order = refl; all = tt }

  pub Grows-trans : {a b c : History} → Grows P a b → Grows P b c → Grows P a c
  Grows-trans {a} g k = record {
    fresh = k.fresh ++ g.fresh;
    order =
        k.order
        ∙ ap (λ (l : List Call). k.fresh ++ l) g.order
        ∙ sym (append_assoc k.fresh g.fresh a);
    all = All-append P k.fresh g.fresh k.all g.all;
  }

  pub Emits-pure : {A : Type 0} (a : A) → Emits P (pure a)
  unfolding pure
  Emits-pure a = record { run = λ x h. Grows-refl h }

  pub Emits-raise : {A : Type 0} (e : Err) → Emits P (raise {A = A} e)
  unfolding raise
  Emits-raise e = record { run = λ x h. Grows-refl h }

  pub Emits-nil_dereference : {A : Type 0} → Emits P (nil_dereference {A = A})
  unfolding nil_dereference
  Emits-nil_dereference = record { run = λ x h. Grows-refl h }

  pub Emits-ask : {A : Type 0} (f : Api → History → A) → Emits P (ask f)
  unfolding ask
  Emits-ask f = record { run = λ x h. Grows-refl h }

  pub Emits-attempt : (c : Call) → P c → Emits P (attempt c)
  unfolding attempt
  Emits-attempt c p = record { run = λ x h. record { fresh = c ∷ []; order = refl; all = (p, tt) } }

  pub Emits-check : (f : Err → Err) (o : Option Err) → Emits P (check f o)
  unfolding check
  Emits-check f none = record { run = λ x h. Grows-refl h }
  Emits-check f (some e) = record { run = λ x h. Grows-refl h }

  pub Emits-owner : (k : NamespacedName) → Emits P (set_owner k)
  unfolding set_owner
  Emits-owner k = record {
    run = λ x h. (Emits-check (λ e. e) (x.set_controller_reference k)).run x h;
  }

  Grows-continue :
      {A B : Type 0} (r : Result A × History) (f : A → M B) (x : Api)
      → ((a : A) → Emits P (f a))
      → Grows P r.1 (continue r f x).1
  Grows-continue (ok a, h) f x k = (k a).run x h
  Grows-continue (err e, h) f x k = Grows-refl h
  Grows-continue (panic, h) f x k = Grows-refl h

  pub Emits-bind :
      {A B : Type 0} (m : M A) (f : A → M B)
      → Emits P m
      → ((a : A) → Emits P (f a))
      → Emits P (m >>= f)
  unfolding ◌>>=◌
  Emits-bind m f km kf = record {
    run = λ x h. Grows-trans (km.run x h) (Grows-continue (m x h) f x kf);
  }

  Grows-try : {A : Type 0} (r : Result A × History) → Grows P r.1 (try_result r).1
  Grows-try (ok a, h) = Grows-refl h
  Grows-try (err e, h) = Grows-refl h
  Grows-try (panic, h) = Grows-refl h

  pub Emits-try : {A : Type 0} (m : M A) → Emits P m → Emits P (try m)
  unfolding try
  Emits-try m k = record { run = λ x h. Grows-trans (k.run x h) (Grows-try (m x h)) }

  pub Emits-if :
      {A : Type 0} (b : Bool) (m n : M A) → Emits P m → Emits P n → Emits P (if b then m else n)
  Emits-if true m n p q = p
  Emits-if false m n p q = q

All-mono : {P Q : Call → Type 0} → ((c : Call) → P c → Q c) → (l : List Call) → All P l → All Q l
All-mono f [] p = tt
All-mono f (c ∷ l) p = (f c p.0, All-mono f l p.1)

-- A weaker predicate.
pub Grows-mono :
    {P Q : Call → Type 0} {a b : History} → ((c : Call) → P c → Q c) → Grows P a b → Grows Q a b
Grows-mono f g = record { fresh = g.fresh; order = g.order; all = All-mono f g.fresh g.all }

pub Emits-mono :
    {P Q : Call → Type 0} {A : Type 0} {m : M A} → ((c : Call) → P c → Q c) → Emits P m → Emits Q m
Emits-mono f k = record { run = λ x h. Grows-mono f (k.run x h) }

pub ruleset emit_rules = (
  Emits-pure, Emits-raise, Emits-nil_dereference, Emits-ask, Emits-attempt, Emits-check,
  Emits-owner, Emits-bind, Emits-try, Emits-if,
)

abbrev pub is_ok : {A : Type 0} → Result A → Bool
is_ok (ok a) = true
is_ok (err e) = false
is_ok panic = false

-- The action never returns a value, whatever the cluster answers.
pub record Fails {A : Type 0} (m : M A) : Type 0 where
  pub run : (api : Api) (h : History) → is_ok (m api h).0 ≡ false

pub Fails-raise : {A : Type 0} (e : Err) → Fails (raise {A = A} e)
unfolding raise
Fails-raise e = record { run = λ api h. refl }

Fails-continue :
    {A B : Type 0} (r : Result A × History) (f : A → M B) (api : Api)
    → ((a : A) → Fails (f a))
    → is_ok (continue r f api).0 ≡ false
Fails-continue (ok a, h) f api k = (k a).run api h
Fails-continue (err e, h) f api k = refl
Fails-continue (panic, h) f api k = refl

pub Fails-bind : {A B : Type 0} (m : M A) (f : A → M B) → ((a : A) → Fails (f a)) → Fails (m >>= f)
unfolding ◌>>=◌
Fails-bind m f k = record { run = λ api h. Fails-continue (m api h) f api k }

Grows-nothing : {a b : History} → Grows (λ c. ⊥) a b → b ≡ a
Grows-nothing {a} {b} g = of g.fresh g.order g.all
  where
    of : (l : List Call) → b ≡ l ++ a → All (λ c. ⊥) l → b ≡ a
    of [] e p = e
    of (c ∷ l) e p = absurd p.0

-- An action that writes nothing keeps the history.
pub Emits-nothing :
    {A : Type 0} (m : M A) → Emits (λ c. ⊥) m → (api : Api) (h : History) → (m api h).1 ≡ h
Emits-nothing m k api h = Grows-nothing (k.run api h)

pub Fails-if : {A : Type 0} (b : Bool) (m n : M A) → Fails m → Fails n → Fails (if b then m else n)
Fails-if true m n p q = p
Fails-if false m n p q = q

-- A test one branch of which fails: a value comes from the other branch.
pub if-ok-then :
    {A : Type 0} (b : Bool) (m n : M A) (api : Api) (h : History)
    → Fails n
    → is_ok ((if b then m else n) api h).0 ≡ true
    → (b ≡ true) × (is_ok (m api h).0 ≡ true) × (((if b then m else n) api h).1 ≡ (m api h).1)
if-ok-then true m n api h k e = (refl, e, refl)
if-ok-then false m n api h k e = ground (arith, k.run api h)

pub if-ok-else :
    {A : Type 0} (b : Bool) (m n : M A) (api : Api) (h : History)
    → Fails m
    → is_ok ((if b then m else n) api h).0 ≡ true
    → (b ≡ false) × (is_ok (n api h).0 ≡ true) × (((if b then m else n) api h).1 ≡ (n api h).1)
if-ok-else false m n api h k e = (refl, e, refl)
if-ok-else true m n api h k e = ground (arith, k.run api h)
