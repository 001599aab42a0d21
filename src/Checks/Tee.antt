-- ===== src/Checks/Tee.antt =====
-- `RegisterTeeVersionChecks` and `RegisterTeeMachineChecks` (tools/pkg/validate/checks.go).

use sealed_auction_fce.Prelude.{
  not, ◌&&◌, List, [], ◌∷◌, String, sprintf, is_empty, str_eq, if◌then◌else◌,
}
use sealed_auction_fce.Report.{Status, pass, warn, fail, skip, CheckResult, Report, add}
use sealed_auction_fce.Checks.{Env, result_of, matches_hex, reachable}
use sealed_auction_fce.Checks.EnvFile.{parse_extension_env}

-- V2: the key of the extension's owner.
unfoldable pub check_v2 : Env → CheckResult
check_v2 env =
    let check = result_of "tee-version" "V2" "extension owner key" in
    let mode = env.getenv "LOCAL_MODE" in
    if not (is_empty (env.getenv "EXTENSION_OWNER_KEY"))
    then check pass "EXTENSION_OWNER_KEY is configured" ""
    else if not (is_empty (env.getenv "DEPLOYMENT_PRIVATE_KEY"))
    then check pass "using DEPLOYMENT_PRIVATE_KEY (EXTENSION_OWNER_KEY not set)" ""
    else if not (str_eq mode "true") && not (is_empty mode)
    then check warn
        "neither EXTENSION_OWNER_KEY nor DEPLOYMENT_PRIVATE_KEY set — AddTeeVersion will use dev key which isn't the extension owner on Coston2"
        "Set EXTENSION_OWNER_KEY or DEPLOYMENT_PRIVATE_KEY in .env"
    else check pass "using dev key (local mode)" ""

-- V4: EXTENSION_ID valid.
unfoldable pub check_v4 : Env → String → CheckResult
check_v4 env path =
    let check = result_of "tee-version" "V4" "EXTENSION_ID valid" in
    let id = (parse_extension_env env path).0 in
    let fix : String = "Delete config/extension.env and re-run scripts/pre-build.sh" in
    if is_empty path
    then check skip "no --config provided" ""
    else if is_empty id && env.not_exist path
    then check skip "extension.env not found — run pre-build.sh first" ""
    else if is_empty id
    then check fail "EXTENSION_ID not set" fix
    else if not (matches_hex 64 id)
    then check fail "EXTENSION_ID malformed" fix
    else check pass id ""

-- The check of one URL of the environment: SKIP when it is not set, PASS when it is reachable, and
-- WARN otherwise.
unfoldable pub check_url :
    Env
    → (Status → String → String → CheckResult)
    → (url missing : String) → (reached unreached : List String) → (fix : String) → CheckResult
check_url env check url missing reached unreached fix =
    if is_empty url
    then check skip missing ""
    else if reachable env url
    then check pass (sprintf reached) ""
    else check warn (sprintf unreached) fix

-- V6: the proxy.
unfoldable pub check_v6 : Env → CheckResult
unfolding check_url
check_v6 env =
    let url = env.getenv "EXT_PROXY_URL" in
    check_url env (result_of "tee-version" "V6" "proxy reachable") url
      "EXT_PROXY_URL not set — allow-tee-version uses -p flag" ("proxy reachable at " ∷ url ∷ [])
      ("proxy not reachable at " ∷ url ∷ " — start services first" ∷ [])
      "Start the proxy or check EXT_PROXY_URL"

unfoldable pub register_tee_version_checks : Env → Report → String → Report
unfolding check_v2 check_v4 check_v6
register_tee_version_checks env r path =
    add (add (add r (check_v2 env)) (check_v4 env path)) (check_v6 env)

-- T1: SIMULATED_TEE mode.
unfoldable pub check_t1 : Env → CheckResult
check_t1 env =
    let check = result_of "tee-machine" "T1" "SIMULATED_TEE mode" in
    let simulated = str_eq (env.getenv "SIMULATED_TEE") "true" in
    if simulated && str_eq (env.getenv "LOCAL_MODE") "false"
    then check warn
        "SIMULATED_TEE=true on non-local deployment — machine will be registered with test attestation values. Set SIMULATED_TEE=false for real TEE hardware"
        "Set SIMULATED_TEE=false in .env when deploying to a real GCP TEE"
    else if simulated
    then check pass "simulated TEE mode (local)" ""
    else check pass "real attestation mode" ""

-- T5: the normal proxy.
unfoldable pub check_t5 : Env → CheckResult
unfolding check_url
check_t5 env =
    let url = env.getenv "NORMAL_PROXY_URL" in
    check_url env (result_of "tee-machine" "T5" "NORMAL_PROXY_URL reachable") url
      "NORMAL_PROXY_URL not set" ("normal proxy reachable at " ∷ url ∷ [])
      ("normal proxy not reachable at " ∷ url ∷ " — required for FTDC availability check" ∷ [])
      "Ensure the normal/FTDC proxy is running and NORMAL_PROXY_URL is correct in .env"

-- T10: the host.
unfoldable pub check_t10 : Env → CheckResult
unfolding check_url
check_t10 env =
    let url = env.getenv "EXT_PROXY_URL" in
    check_url env (result_of "tee-machine" "T10" "host URL reachable") url "EXT_PROXY_URL not set"
      ("host URL reachable at " ∷ url ∷ [])
      ("host URL not reachable at " ∷ url
        ∷ " — machine will be registered with unreachable host. Data providers can't relay instructions"
        ∷ [])
      "Ensure the host is accessible and EXT_PROXY_URL or -h flag points to the right URL"

unfoldable pub register_tee_machine_checks : Env → Report → Report
unfolding check_t1 check_t5 check_t10
register_tee_machine_checks env r = add (add (add r (check_t1 env)) (check_t5 env)) (check_t10 env)
