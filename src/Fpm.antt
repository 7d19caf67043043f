-- ===== src/Fpm.antt =====
-- The FPM manager of controllers/fpm_manager.go: the commands that it runs. What the system answers
-- to a command is a parameter.
pub mod Scripts
mod Examples
use Prim.Native.String.{◌++◌}
use frappe_operator.Common.{
  ℕ, zero, suc, ◌+◌, ◌&&◌, not, String, Bool, true, false, Option, none, some, List, [], ◌∷◌,
  str_eq, if◌then◌else◌,
}
use frappe_operator.Common.Int.{ℤ, pos, negsuc}
use frappe_operator.Types.{FpmRepository}
use frappe_operator.Requeue.{itoa}

pub record FpmManager : Type 0 where
  pub fpm_path : String

pub new_fpm_manager : String → FpmManager
new_fpm_manager path = record { fpm_path = if str_eq path "" then "/usr/local/bin/fpm" else path }

-- What a command ends with: its output, and the error of one that failed.
pub record Ended : Type 0 where
  pub output : String
  pub error : Option String

-- The commands that have run, the last first, and how the system ends the next one.
abbrev pub Commands : Type 0
Commands = List (List String)

abbrev pub Answers : Type 0
Answers = Commands → List String → Ended

-- An operation of the manager: its error, its output and the commands that have run after it.
pub record Ran : Type 0 where
  pub error : Option String
  pub output : String
  pub commands : Commands

-- An error with its context, as `fmt.Errorf` writes it.
wrapped : String → String → Option String → Option String
wrapped context output none = none
wrapped context output (some e) =
    some ("failed to " ++ (context ++ (": " ++ (e ++ (" (output: " ++ (output ++ ")"))))))

shown : Option String → String → String
shown none output = output
shown (some e) output = ""

-- A command of the manager's tool.
unfoldable pub run_command : Answers → Commands → FpmManager → List String → String → Ran
unfolding wrapped shown
run_command system done m args context =
    let ended = system done (m.fpm_path ∷ args) in
    record {
      error = wrapped context ended.output ended.error;
      output = shown ended.error ended.output;
      commands = (m.fpm_path ∷ args) ∷ done;
    }

-- `%d` of an integer.
pub int_text : ℤ → String
int_text (pos n) = itoa n
int_text (negsuc n) = "-" ++ itoa (n + 1)

pub is_zero : ℤ → Bool
is_zero (pos zero) = true
is_zero (pos (suc n)) = false
is_zero (negsuc n) = false

unfoldable pub add_args : FpmRepository → List String
unfolding is_zero int_text
add_args repo =
    "repo"
    ∷ "add"
    ∷ repo.name
    ∷ repo.url
    ∷ (if is_zero repo.priority then [] else ("--priority" ∷ int_text repo.priority ∷ []))

-- The rest is only done after a success.
unless_failed : Option String → Ran → Ran → Ran
unless_failed (some e) first more = first
unless_failed none first more = more

unfoldable pub configure_repositories : Answers → FpmManager → Commands → List FpmRepository → Ran
unfolding unless_failed
configure_repositories system m done [] = record { error = none; output = ""; commands = done }
configure_repositories system m done (repo ∷ repos) =
    let first = run_command system done m (add_args repo) ("add repo " ++ repo.name) in
    let more = configure_repositories system m first.commands repos in
    unless_failed first.error first more

pub set_default_repository : Answers → FpmManager → Commands → String → Ran
set_default_repository system m done name =
    if str_eq name ""
    then record { error = none; output = ""; commands = done }
    else run_command system done m ("repo" ∷ "default" ∷ name ∷ []) ("set default repo " ++ name)

abbrev pub package_id : String → String → String → String
package_id org name version = org ++ ("/" ++ (name ++ ("==" ++ version)))

pub install_app : Answers → FpmManager → Commands → String → String → String → String → Ran
install_app system m done org name version bench_path =
    run_command system done m
      ("install" ∷ package_id org name version ∷ "--bench-path" ∷ bench_path ∷ [])
      ("install " ++ package_id org name version)

identifier : String → String → String → String → String
identifier repo org name version =
    let base = repo ++ ("/" ++ (org ++ ("/" ++ name))) in
    if not (str_eq version "") && not (str_eq version "latest")
    then base ++ (":" ++ version)
    else base

pub get_app : Answers → FpmManager → Commands → String → String → String → String → Ran
unfolding identifier
get_app system m done repo org name version =
    run_command system done m ("get-app" ∷ identifier repo org name version ∷ [])
      ("get-app " ++ identifier repo org name version)

pub search_package : Answers → FpmManager → Commands → String → Ran
search_package system m done query =
    run_command system done m ("search" ∷ (if str_eq query "" then [] else query ∷ []))
      ("search " ++ query)
