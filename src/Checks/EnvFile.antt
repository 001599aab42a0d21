-- ===== src/Checks/EnvFile.antt =====
-- The file extension.env (tools/pkg/validate/checks.go): `CheckExtensionEnvFormat` and
-- `parseExtensionEnv`, which read it each in its own way.
use Prim.Native.String.{◌++◌ as append}
use sealed_auction_fce.Prelude.{
  ℕ, ◌||◌, none, some, List, [], ◌∷◌, String, sprintf, is_empty, str_eq, map_get, map_set,
  if◌then◌else◌,
}
use sealed_auction_fce.Report.{pass, fail, skip, CheckResult}
use sealed_auction_fce.Checks.{Env, result_of, trim_space, split_eq, is_comment, matches_hex}

-- The loop of `CheckExtensionEnvFormat` over the lines of the file, into a map.
unfoldable pub scan_vars : List String → List (String × String) → List (String × String)
unfolding trim_space split_eq
scan_vars [] vars = vars
scan_vars (text ∷ lines) vars =
    let line = trim_space text in
    let vars' : List (String × String) = elim (split_eq line) [
      | none ↦ vars
      | some (key, value) ↦ map_set vars (trim_space key) (trim_space value)
    ] in
    scan_vars lines (if is_empty line || is_comment line then vars else vars')

-- `switch key` of `parseExtensionEnv`.
abbrev pub assign : String → String → String × String → String × String
assign key value (extension_id, instruction_sender) =
    if str_eq key "EXTENSION_ID"
    then (value, instruction_sender)
    else if str_eq key "INSTRUCTION_SENDER"
    then (extension_id, value)
    else (extension_id, instruction_sender)

-- The loop of `parseExtensionEnv`.
unfoldable pub scan_pair : List String → String × String → String × String
unfolding trim_space split_eq
scan_pair [] pair = pair
scan_pair (text ∷ lines) pair =
    let line = trim_space text in
    let pair' : String × String = elim (split_eq line) [
      | none ↦ pair
      | some (key, value) ↦ assign (trim_space key) (trim_space value) pair
    ] in
    scan_pair lines (if is_empty line || is_comment line then pair else pair')

-- `parseExtensionEnv`; its error is always nil.
unfoldable pub parse_extension_env : Env → String → String × String
unfolding scan_pair
parse_extension_env env path = elim (env.lines_of path) [
  | none ↦ ("", "")
  | some lines ↦ scan_pair lines ("", "")
]

abbrev fix_env : String
fix_env = "Delete config/extension.env and re-run scripts/pre-build.sh"

-- The check of one variable.
unfoldable pub check_var : Env → String → ℕ → List (String × String) → CheckResult
check_var env name digits vars =
    let check = result_of "deploy" "D7" (append name " in extension.env") in
    elim (map_get vars name) [
      | none ↦ check fail (append name " not found in extension.env") fix_env
      | some val ↦
          if matches_hex digits val
          then check pass val ""
          else check fail (sprintf (name ∷ " has invalid format: " ∷ env.quote val ∷ [])) fix_env
    ]

-- `CheckExtensionEnvFormat`.
unfoldable pub check_extension_env_format : Env → String → List CheckResult
unfolding scan_vars check_var
check_extension_env_format env path = elim (env.lines_of path) [
  | none ↦
      result_of "deploy" "D7" "extension.env exists" skip (append "file not found: " path) "" ∷ []
  | some lines ↦
      let vars = scan_vars lines [] in
      check_var env "INSTRUCTION_SENDER" 40 vars ∷ check_var env "EXTENSION_ID" 64 vars ∷ []
]
