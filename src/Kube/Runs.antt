-- ===== src/Kube/Runs.antt =====
-- Runs of handlers for one client that end with a value.
use frappe_operator.Common.{ℕ, zero, suc, ◌≡◌, ◌∙◌, refl, ap, Bool, true, false, if◌then◌else◌}
use frappe_operator.Kube.{Result, ok, History, Api, M, continue, pure, ask, try, got, ◌>>=◌}
use frappe_operator.Kube.Retry.{retry_on_conflict}

abbrev pub Runs : {A : Type 0} → Api → M A → History → A → History → Type 0
Runs api m h a h' = m api h ≡ (ok a, h')

pub bind-Runs :
    {A B : Type 0} (api : Api) (m : M A) (f : A → M B) (h h' : History) (a : A)
    (r : Result B × History)
    → Runs api m h a h'
    → f a api h' ≡ r
    → (m >>= f) api h ≡ r
unfolding ◌>>=◌
bind-Runs api m f h h' a r p q = ap (λ x. continue x f api) p ∙ q

-- What succeeds at once is tried once.
pub retry_on_conflict-Runs :
    (api : Api) (n : ℕ) (m : M (Unit {0})) (h h' : History)
    → Runs api m h tt h'
    → Runs api (retry_on_conflict n m) h tt h'
unfolding retry_on_conflict ◌>>=◌
retry_on_conflict-Runs api zero m h h' p = p
retry_on_conflict-Runs api (suc n) m h h' p = rw p refl

pub ask-Runs :
    {A : Type 0} (api : Api) (h : History) (g : Api → History → A) (a : A)
    → g api h ≡ a
    → Runs api (ask g) h a h
unfolding ◌>>=◌
ask-Runs api h g a p = ap (λ x. (ok x, h)) p

pub pure-Runs : {A : Type 0} (api : Api) (h : History) (a : A) → Runs api (pure a) h a h
unfolding ◌>>=◌
pure-Runs api h a = refl

pub try-Runs :
    {A : Type 0} (api : Api) (m : M A) (h h' : History) (a : A)
    → Runs api m h a h'
    → Runs api (try m) h (got a) h'
unfolding ◌>>=◌
try-Runs api m h h' a p = rw p refl

-- A test whose outcome is known.
pub else-Runs :
    {A : Type 0} (api : Api) (b : Bool) (m n : M A) (h h' : History) (a : A)
    → b ≡ false
    → Runs api n h a h'
    → Runs api (if b then m else n) h a h'
else-Runs api b m n h h' a p r = rw p r

pub then-Runs :
    {A : Type 0} (api : Api) (b : Bool) (m n : M A) (h h' : History) (a : A)
    → b ≡ true
    → Runs api m h a h'
    → Runs api (if b then m else n) h a h'
then-Runs api b m n h h' a p r = rw p r
