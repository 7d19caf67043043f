-- ===== src/Kube/Ensures.antt =====
-- What a handler writes for one client, together with what it returns.
use frappe_operator.Common.{◌≡◌, refl, Bool, true, false, if◌then◌else◌}
use frappe_operator.Kube.{
  Err, Result, ok, err, panic, Call, History, Api, M, continue, pure, raise, nil_dereference, ask,
  attempt, check, ◌>>=◌,
}
use frappe_operator.Kube.Traces.{
  Grows, Grows-refl, Grows-trans, Emits, Emits-attempt, Emits-check, Emits-bind,
}
use frappe_operator.Kube.Reads.{EmitsFrom}

-- A value that is returned satisfies `Q`.
abbrev pub Yields : {A : Type 0} → (A → Type 0) → Result A → Type 0
Yields Q (ok a) = Q a
Yields Q (err e) = Unit
Yields Q panic = Unit

pub record Ensures (api : Api) (P : Call → Type 0) {A : Type 0} (Q : A → Type 0) (m : M A)
    : Type 0 where
  pub writes : (h : History) → Grows P h (m api h).1
  pub returns : (h : History) → Yields Q (m api h).0

-- The same of one run.
pub record EnsuresAt (api : Api) (P : Call → Type 0) {A : Type 0} (Q : A → Type 0) (h : History)
    (m : M A) : Type 0 where
  pub writes : Grows P h (m api h).1
  pub returns : Yields Q (m api h).0

abbrev pub Anything : {A : Type 0} → A → Type 0
Anything a = Unit

anything : {A : Type 0} (r : Result A) → Yields (Anything {A = A}) r
anything (ok a) = tt
anything (err e) = tt
anything panic = tt

module _ {api : Api} {P : Call → Type 0} where
  pub Ensures-pure : {A : Type 0} (Q : A → Type 0) (a : A) → Q a → Ensures api P Q (pure a)
  unfolding ◌>>=◌
  Ensures-pure Q a q = record { writes = λ h. Grows-refl h; returns = λ h. q }

  pub Ensures-raise : {A : Type 0} (Q : A → Type 0) (e : Err) → Ensures api P Q (raise e)
  unfolding ◌>>=◌
  Ensures-raise Q e = record { writes = λ h. Grows-refl h; returns = λ h. tt }

  pub Ensures-nil_dereference : {A : Type 0} (Q : A → Type 0) → Ensures api P Q nil_dereference
  unfolding ◌>>=◌
  Ensures-nil_dereference Q = record { writes = λ h. Grows-refl h; returns = λ h. tt }

  continue-writes :
      {A B : Type 0} (Q : A → Type 0) (R : B → Type 0) (r : Result A × History) (f : A → M B)
      → Yields Q r.0
      → ((a : A) → Q a → Ensures api P R (f a))
      → Grows P r.1 (continue r f api).1
  continue-writes Q R (ok a, h) f y k = (k a y).writes h
  continue-writes Q R (err e, h) f y k = Grows-refl h
  continue-writes Q R (panic, h) f y k = Grows-refl h

  continue-returns :
      {A B : Type 0} (Q : A → Type 0) (R : B → Type 0) (r : Result A × History) (f : A → M B)
      → Yields Q r.0
      → ((a : A) → Q a → Ensures api P R (f a))
      → Yields R (continue r f api).0
  continue-returns Q R (ok a, h) f y k = (k a y).returns h
  continue-returns Q R (err e, h) f y k = tt
  continue-returns Q R (panic, h) f y k = tt

  pub Ensures-bind :
      {A B : Type 0} (Q : A → Type 0) (R : B → Type 0) (m : M A) (f : A → M B)
      → Ensures api P Q m
      → ((a : A) → Q a → Ensures api P R (f a))
      → Ensures api P R (m >>= f)
  unfolding ◌>>=◌
  Ensures-bind Q R m f km kf = record {
    writes = λ h. Grows-trans (km.writes h) (continue-writes Q R (m api h) f (km.returns h) kf);
    returns = λ h. continue-returns Q R (m api h) f (km.returns h) kf;
  }

  -- The action that follows a read is known to follow the client's answer.
  pub Ensures-ask :
      {A B : Type 0} (R : B → Type 0) (g : Api → History → A) (f : A → M B)
      → ((h : History) → Ensures api P R (f (g api h)))
      → Ensures api P R (ask g >>= f)
  unfolding ◌>>=◌
  Ensures-ask R g f k = record { writes = λ h. (k h).writes h; returns = λ h. (k h).returns h }

  pub At-Ensures :
      {A : Type 0} {Q : A → Type 0} {m : M A} (h : History)
      → Ensures api P Q m
      → EnsuresAt api P Q h m
  At-Ensures h k = record { writes = k.writes h; returns = k.returns h }

  -- The second action starts from what the first has added.
  continue-At :
      {A B : Type 0} (R : B → Type 0) (h : History) (r : Result A × History) (f : A → M B)
      → Grows P h r.1
      → ((a : A) (h' : History) → Grows P h h' → EnsuresAt api P R h' (f a))
      → Grows P r.1 (continue r f api).1 × Yields R (continue r f api).0
  continue-At R h (ok a, h') f g k = ((k a h' g).writes, (k a h' g).returns)
  continue-At R h (err e, h') f g k = (Grows-refl h', tt)
  continue-At R h (panic, h') f g k = (Grows-refl h', tt)

  pub At-bind :
      {A B : Type 0} (R : B → Type 0) (m : M A) (f : A → M B) (h : History)
      → Emits P m
      → ((a : A) (h' : History) → Grows P h h' → EnsuresAt api P R h' (f a))
      → EnsuresAt api P R h (m >>= f)
  unfolding ◌>>=◌
  At-bind R m f h km k =
      let (w, y) = continue-At R h (m api h) f (km.run api h) k in
      record { writes = Grows-trans (km.run api h) w; returns = y }

  -- What follows a read starts where the client has answered.
  pub ask-At :
      {A B : Type 0} (R : B → Type 0) (g : Api → History → A) (f : A → M B) (h : History)
      → EnsuresAt api P R h (f (g api h))
      → EnsuresAt api P R h (ask g >>= f)
  unfolding ◌>>=◌
  ask-At R g f h k = record { writes = k.writes; returns = k.returns }

  pub Ensures-ask-At :
      {A B : Type 0} (R : B → Type 0) (g : Api → History → A) (f : A → M B)
      → ((h : History) → EnsuresAt api P R h (f (g api h)))
      → Ensures api P R (ask g >>= f)
  unfolding ◌>>=◌
  Ensures-ask-At R g f k = record { writes = λ h. (k h).writes; returns = λ h. (k h).returns }

  pub Ensures-if :
      {A : Type 0} (Q : A → Type 0) (b : Bool) (m n : M A)
      → (b ≡ true → Ensures api P Q m)
      → (b ≡ false → Ensures api P Q n)
      → Ensures api P Q (if b then m else n)
  Ensures-if Q true m n p q = p refl
  Ensures-if Q false m n p q = q refl

  -- An action of whose result nothing is known.
  pub Ensures-Emits : {A : Type 0} {m : M A} → Emits P m → Ensures api P Anything m
  Ensures-Emits {m = m} k = record {
    writes = λ h. k.run api h;
    returns = λ h. anything (m api h).0;
  }

  pub Ensures-From : {A : Type 0} {m : M A} → EmitsFrom api P m → Ensures api P Anything m
  Ensures-From {m = m} k = record { writes = λ h. k.run h; returns = λ h. anything (m api h).0 }

pub Emits-perform :
    {P : Call → Type 0} (f : Err → Err) (c : Call) → P c → Emits P (attempt c >>= check f)
Emits-perform f c p = Emits-bind (attempt c) (check f) (Emits-attempt c p) (Emits-check f)
