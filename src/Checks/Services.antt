-- ===== src/Checks/Services.antt =====
-- `RegisterServicesChecks` (tools/pkg/validate/checks.go), one definition for each check.
use Prim.Native.String.{◌++◌ as append}
use sealed_auction_fce.Prelude.{
  Bool, not, ◌&&◌, ◌||◌, [], ◌∷◌, String, sprintf, is_empty, str_eq, if◌then◌else◌,
}
use sealed_auction_fce.Report.{pass, warn, fail, skip, CheckResult, Report, add}
use sealed_auction_fce.Checks.{Env, result_of, matches_hex, reachable}
use sealed_auction_fce.Checks.EnvFile.{parse_extension_env}

abbrev pub is_local : String → Bool
is_local mode = str_eq mode "true" || is_empty mode

-- S2: EXTENSION_ID is set and well-formed.
unfoldable pub check_s2 : Env → String → CheckResult
check_s2 env path =
    let check = result_of "services" "S2" "EXTENSION_ID is set and well-formed" in
    let id = (parse_extension_env env path).0 in
    let fix : String = "Delete config/extension.env and re-run scripts/pre-build.sh" in
    if is_empty path
    then check skip "run pre-build.sh first" ""
    else if is_empty id
    then check fail "EXTENSION_ID is empty or not found in extension.env" fix
    else if not (matches_hex 64 id)
    then check fail (append "EXTENSION_ID has invalid format: " (env.quote id)) fix
    else check pass id ""

-- S5: the port is free when nothing accepts a connection on it.
unfoldable pub check_s5 : Env → CheckResult
check_s5 env =
    let check = result_of "services" "S5" "extension port not in use" in
    let set = env.getenv "EXTENSION_PORT" in
    let port = if is_empty set then "7702" else set in
    if env.accepts port
    then check warn
        (sprintf ("port " ∷ port ∷ " is already in use — extension server will fail to bind" ∷ []))
        "Stop the process using that port or change EXTENSION_PORT"
    else check pass "port available" ""

-- S7: port configuration.
unfoldable pub check_s7 : Env → CheckResult
check_s7 env =
    let check = result_of "services" "S7" "port configuration" pass in
    let ext_port = env.getenv "EXTENSION_PORT" in
    let sign_port = env.getenv "SIGN_PORT" in
    if not (is_empty ext_port) || not (is_empty sign_port)
    then check (sprintf ("EXTENSION_PORT=" ∷ ext_port ∷ ", SIGN_PORT=" ∷ sign_port ∷ [])) ""
    else check "using defaults (standalone: 8080/9090, Docker: 7702/7701)" ""

-- S9: EXT_PROXY_URL reachable.
unfoldable pub check_s9 : Env → CheckResult
check_s9 env =
    let check = result_of "services" "S9" "EXT_PROXY_URL reachable" in
    let url = env.getenv "EXT_PROXY_URL" in
    if is_empty url
    then check skip "EXT_PROXY_URL not set" ""
    else if reachable env url
    then check pass (append "proxy reachable at " url) ""
    else check warn (sprintf ("proxy not reachable at " ∷ url ∷ " — is the proxy running?" ∷ []))
        "Start the proxy or check EXT_PROXY_URL"

-- S10: PROXY_PRIVATE_KEY set on non-local.
unfoldable pub check_s10 : Env → CheckResult
check_s10 env =
    let check = result_of "services" "S10" "PROXY_PRIVATE_KEY set on non-local" in
    let mode = env.getenv "LOCAL_MODE" in
    if is_local mode
    then check pass "local mode, dev key OK" ""
    else if str_eq mode "false" && is_empty (env.getenv "PROXY_PRIVATE_KEY")
    then check warn "PROXY_PRIVATE_KEY not set in non-local mode — proxy will use default key"
        "Set PROXY_PRIVATE_KEY in .env for non-local deployments"
    else check pass "PROXY_PRIVATE_KEY is configured" ""

unfoldable pub register_services_checks : Env → Report → String → Report
unfolding check_s2 check_s5 check_s7 check_s9 check_s10
register_services_checks env r path =
    add (add (add (add (add r (check_s2 env path)) (check_s5 env)) (check_s7 env)) (check_s9 env))
      (check_s10 env)
