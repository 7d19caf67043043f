-- ===== src/Fpm/Examples.antt =====
-- Tests of the FPM manager and of its scripts.
use Prim.Native.String.{◌++◌}
use frappe_operator.Common.{
  ◌≡◌, refl, String, false, none, some, List, [], ◌∷◌, str_eq, if◌then◌else◌,
}
use frappe_operator.Common.Int.{pos}
use frappe_operator.Types.{FpmRepository, AppSource}
use frappe_operator.Fpm.{new_fpm_manager, Answers, configure_repositories, run_command, add_args}
use frappe_operator.Requeue.{itoa}
use frappe_operator.Fpm.Scripts.{generate_fpm_config_script, app_lines}

abbrev first_repo : FpmRepository
first_repo = record { name = "main"; url = "https://fpm.frappe.io"; priority = pos 0 }

abbrev broken_repo : FpmRepository
broken_repo = record { name = "broken"; url = "https://broken.example"; priority = pos 10 }

-- The repository named broken cannot be added.
abbrev repo_of : List String → String
repo_of (fpm ∷ repo ∷ add ∷ name ∷ rest) = name
repo_of _ = ""

abbrev system : Answers
system done command = record {
  output = "no route";
  error = if str_eq (repo_of command) "broken" then some "exit status 1" else none;
}

-- The first failure ends the configuration.
stopped_test :
    configure_repositories system
      (new_fpm_manager "")
      []
      (first_repo ∷ broken_repo ∷ first_repo ∷ [])
    ≡ record {
      error = some "failed to add repo broken: exit status 1 (output: no route)";
      output = "";
      commands =
          ("/usr/local/bin/fpm" ∷ "repo" ∷ "add" ∷ "broken" ∷ "https://broken.example"
            ∷ "--priority" ∷ "10" ∷ [])
          ∷ ("/usr/local/bin/fpm" ∷ "repo" ∷ "add" ∷ "main" ∷ "https://fpm.frappe.io" ∷ [])
          ∷ [];
    }
unfolding configure_repositories new_fpm_manager run_command add_args itoa
stopped_test = refl

abbrev git_app : AppSource
git_app = record {
  name = "erpnext";
  source = "git";
  version = "";
  org = "";
  git_url = "https://git.example/erpnext";
  git_branch = "main";
}

skipped_test :
    app_lines false git_app
    ≡ "# Install app: " ∷ "erpnext" ∷ " (source: " ∷ "git" ∷ ")\n" ∷ "echo 'Skipping Git app "
      ∷ "erpnext" ∷ ": Git is disabled in this environment'\n\n" ∷ []
unfolding app_lines
skipped_test = refl

config_test :
    generate_fpm_config_script [] ""
    ≡ "#!/bin/bash\nset -e\n\necho 'Configuring FPM repositories...'\n\n"
      ++ "echo 'FPM configuration complete'\nfpm repo list || echo 'Could not list repositories'\n"
unfolding generate_fpm_config_script
config_test = refl
