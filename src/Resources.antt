-- ===== src/Resources.antt =====
-- The builders of pkg/resources, with the setters that the controllers call. A builder is the object
-- that it builds, and a setter returns the object it has changed; the owner and the scheme that
-- `WithOwner` keeps until `Build` are the call of `set_owner` in `create_owned`.
pub mod ContainerBuilder
pub mod DeploymentBuilder
pub mod StatefulSetBuilder
pub mod ServiceBuilder
pub mod Creation
use frappe_operator.Common.{String, List}
use mathlib.Core.List.{◌++◌ as ◌+++◌}
use frappe_operator.Types.{NamespacedName}
use frappe_operator.Kube.{Call, M, ◌>>=◌, ◌>>◌, perform, set_owner}

infixl 3 ◌▷◌
-- `builder.WithX(…)`
abbrev pub ◌▷◌ : {A B : Type 0} → A → (A → B) → B
a ▷ f = f a

-- `for k, v := range m { n[k] = v }`: the entries set last stand first.
abbrev pub set_all : List (String × String) → List (String × String) → List (String × String)
set_all m n = m +++ n

-- `Build`, whose error ends the handler, and the call that creates what was built.
unfoldable pub create_owned : NamespacedName → Call → M (Unit {0})
create_owned key call = set_owner key >> perform (λ e. e) call
