-- ===== src/Kube/Reads.antt =====
-- What a handler writes for one client, where that depends on what the client answered before.
use frappe_operator.Common.{◌≡◌, refl, Bool, true, false, if◌then◌else◌}
use frappe_operator.Kube.{Result, ok, err, panic, Call, History, Api, M, continue, pure, ask, ◌>>=◌}
use frappe_operator.Kube.Traces.{Grows, Grows-refl, Grows-trans, Grows-mono, Emits}

pub record EmitsFrom (api : Api) (P : Call → Type 0) {A : Type 0} (m : M A) : Type 0 where
  pub run : (h : History) → Grows P h (m api h).1

module _ {api : Api} {P : Call → Type 0} where
  pub From-Emits : {A : Type 0} {m : M A} → Emits P m → EmitsFrom api P m
  From-Emits k = record { run = λ h. k.run api h }

  continue-From :
      {A B : Type 0} (r : Result A × History) (f : A → M B)
      → ((a : A) (h : History) → r ≡ (ok a, h) → EmitsFrom api P (f a))
      → Grows P r.1 (continue r f api).1
  continue-From (ok a, h) f k = (k a h refl).run h
  continue-From (err e, h) f k = Grows-refl h
  continue-From (panic, h) f k = Grows-refl h

  -- The second action is known to follow a value of the first.
  pub From-bind :
      {A B : Type 0} (m : M A) (f : A → M B)
      → EmitsFrom api P m
      → ((a : A) (h h' : History) → m api h ≡ (ok a, h') → EmitsFrom api P (f a))
      → EmitsFrom api P (m >>= f)
  unfolding ◌>>=◌
  From-bind m f km kf = record {
    run = λ h. Grows-trans (km.run h) (continue-From (m api h) f (λ a h' e. kf a h h' e));
  }

  -- What follows a read is known to follow the client's answer.
  pub From-ask :
      {A B : Type 0} (g : Api → History → A) (f : A → M B)
      → ((h : History) → EmitsFrom api P (f (g api h)))
      → EmitsFrom api P (ask g >>= f)
  unfolding ◌>>=◌
  From-ask g f k = record { run = λ h. (k h).run h }

  pub From-if :
      {A : Type 0} (b : Bool) (m n : M A)
      → (b ≡ true → EmitsFrom api P m)
      → (b ≡ false → EmitsFrom api P n)
      → EmitsFrom api P (if b then m else n)
  From-if true m n p q = p refl
  From-if false m n p q = q refl

  -- A value that is passed on, at once or after an action.
  pub From-pure :
      {A B : Type 0} (a : A) (f : A → M B) → EmitsFrom api P (f a) → EmitsFrom api P (pure a >>= f)
  unfolding ◌>>=◌
  From-pure a f k = record { run = λ h. k.run h }

  continue-then :
      {A B : Type 0} (r : Result (Unit {0}) × History) (a : A) (f : A → M B)
      → EmitsFrom api P (f a)
      → Grows P r.1 (continue (continue r (λ u. pure a) api) f api).1
  unfolding ◌>>=◌
  continue-then (ok u, h) a f k = k.run h
  continue-then (err e, h) a f k = Grows-refl h
  continue-then (panic, h) a f k = Grows-refl h

  pub From-then :
      {A B : Type 0} (m : M (Unit {0})) (a : A) (f : A → M B)
      → EmitsFrom api P m
      → EmitsFrom api P (f a)
      → EmitsFrom api P ((m >>= λ u. pure a) >>= f)
  unfolding ◌>>=◌
  From-then m a f km kf = record {
    run = λ h. Grows-trans (km.run h) (continue-then (m api h) a f kf);
  }

pub From-mono :
    {api : Api} {P Q : Call → Type 0} {A : Type 0} {m : M A}
    → ((c : Call) → P c → Q c)
    → EmitsFrom api P m
    → EmitsFrom api Q m
From-mono f k = record { run = λ h. Grows-mono f (k.run h) }
