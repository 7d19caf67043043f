-- ===== src/Fpm/Scripts.antt =====
-- The scripts of controllers/fpm_manager.go: `GenerateFPMConfigScript` and
-- `GenerateAppInstallScript`, as the texts that they write, one part after the other.
use Prim.Native.String.{◌++◌}
use mathlib.Core.List.{◌++◌ as ◌+++◌}
use frappe_operator.Common.{◌||◌, not, String, Bool, List, [], ◌∷◌, str_eq, if◌then◌else◌}
use frappe_operator.Common.Int.{ℤ, pos}
use frappe_operator.Types.{FpmRepository, AppSource}
use frappe_operator.Fpm.{package_id, int_text, is_zero}

-- The texts, one after the other.
pub joined : List String → String
joined [] = ""
joined (t ∷ ts) = t ++ joined ts

priority_or_default : ℤ → ℤ
unfolding is_zero
priority_or_default p = if is_zero p then pos 50 else p

repository_lines : FpmRepository → List String
unfolding priority_or_default
repository_lines repo =
    "# Add repository: "
    ∷ repo.name
    ∷ "\n"
    ∷ "fpm repo add "
    ∷ repo.name
    ∷ " "
    ∷ repo.url
    ∷ " --priority "
    ∷ int_text (priority_or_default repo.priority)
    ∷ " || echo 'Repository "
    ∷ repo.name
    ∷ " may already exist'\n\n"
    ∷ []

all_lines : {A : Type 0} → (A → List String) → List A → List String
all_lines f [] = []
all_lines f (x ∷ xs) = f x +++ all_lines f xs

default_lines : String → List String
default_lines repo =
    if str_eq repo ""
    then []
    else ("# Set default repository for publishing\n" ∷ "fpm repo default " ∷ repo
        ∷ " || echo 'Could not set default repository'\n\n" ∷ [])

unfoldable pub generate_fpm_config_script : List FpmRepository → String → String
unfolding joined all_lines repository_lines default_lines
generate_fpm_config_script repos default_repo = joined (
    ("#!/bin/bash\n" ∷ "set -e\n\n" ∷ "echo 'Configuring FPM repositories...'\n\n" ∷ [])
    +++ (all_lines repository_lines repos
        +++ (default_lines default_repo
            +++ ("echo 'FPM configuration complete'\n"
                ∷ "fpm repo list || echo 'Could not list repositories'\n" ∷ []))))

-- The texts of an app from FPM, from Git and in the image.
fpm_lines : AppSource → List String
fpm_lines app =
    if str_eq app.org "" || str_eq app.version ""
    then ("echo 'Warning: FPM app " ∷ app.name ∷ " missing org or version, skipping'\n\n" ∷ [])
    else (let id = package_id app.org app.name app.version in
        "echo 'Installing FPM package: " ∷ id ∷ "'\n" ∷ "fpm install " ∷ id
        ∷ " --bench-path $BENCH_PATH || {\n" ∷ "  echo 'Error: Failed to install FPM package " ∷ id
        ∷ "'\n" ∷ "  exit 1\n" ∷ "}\n\n" ∷ [])

branch_lines : String → List String
branch_lines branch = if str_eq branch "" then [] else (" --branch " ∷ branch ∷ [])

git_lines : Bool → AppSource → List String
unfolding branch_lines
git_lines git_enabled app =
    if not git_enabled
    then ("echo 'Skipping Git app " ∷ app.name ∷ ": Git is disabled in this environment'\n\n" ∷ [])
    else if str_eq app.git_url ""
    then ("echo 'Warning: Git app " ∷ app.name ∷ " missing gitUrl, skipping'\n\n" ∷ [])
    else (("echo 'Installing Git app: " ∷ app.name ∷ " from " ∷ app.git_url ∷ "'\n"
          ∷ "bench get-app " ∷ app.git_url ∷ [])
        +++ (branch_lines app.git_branch
            +++ (" || {\n" ∷ "  echo 'Error: Failed to install Git app " ∷ app.name ∷ "'\n"
                ∷ "  exit 1\n" ∷ "}\n\n" ∷ [])))

image_lines : AppSource → List String
image_lines app =
    "echo 'App " ∷ app.name ∷ " expected to be pre-installed in container image'\n"
    ∷ "if [ ! -d \"apps/" ∷ app.name ∷ "\" ]; then\n" ∷ "  echo 'Warning: App " ∷ app.name
    ∷ " not found in image'\n" ∷ "fi\n\n" ∷ []

unfoldable pub app_lines : Bool → AppSource → List String
unfolding fpm_lines git_lines image_lines
app_lines git_enabled app =
    "# Install app: "
    ∷ app.name
    ∷ " (source: "
    ∷ app.source
    ∷ ")\n"
    ∷ (if str_eq app.source "fpm"
        then fpm_lines app
        else if str_eq app.source "git"
        then git_lines git_enabled app
        else if str_eq app.source "image"
        then image_lines app
        else ("echo 'Warning: Unknown source type \"" ∷ app.source ∷ "\" for app " ∷ app.name
            ∷ ", skipping'\n\n" ∷ []))

build_lines : List String
build_lines =
    "echo 'Generating apps.txt...'\n"
    ∷ "ls -1 apps/ | grep -v '__pycache__' > sites/apps.txt || echo 'frappe' > sites/apps.txt\n\n"
    ∷ "# Detect if we should build assets (requires node_modules and npm)\n"
    ∷ "if [ \"$SKIP_BENCH_BUILD\" == \"1\" ]; then\n"
    ∷ "  echo 'Skipping bench build: SKIP_BENCH_BUILD=1 is set.'\n"
    ∷ "elif [ -d \"apps/frappe/node_modules\" ] && command -v npm &> /dev/null; then\n"
    ∷ "  echo 'Building production assets...'\n" ∷ "  bench build --production || {\n"
    ∷ "    echo 'Warning: Asset build failed, continuing anyway'\n" ∷ "  }\n" ∷ "else\n"
    ∷ "  echo 'Skipping bench build: node_modules or npm missing. Assuming pre-built assets are present.'\n"
    ∷ "fi\n\n" ∷ "echo 'App installation complete'\n" ∷ []

pub generate_app_install_script : List AppSource → Bool → String → String
unfolding joined all_lines app_lines build_lines
generate_app_install_script apps git_enabled bench_path = joined (
    ("#!/bin/bash\n" ∷ "set -e\n\n" ∷ "BENCH_PATH=" ∷ bench_path ∷ "\n" ∷ "cd $BENCH_PATH\n\n"
      ∷ "echo 'Installing apps...'\n\n" ∷ [])
    +++ (all_lines (app_lines git_enabled) apps +++ build_lines))
