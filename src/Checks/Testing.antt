-- ===== src/Checks/Testing.antt =====
-- `RegisterTestChecks` and `RegisterStubChecks` (tools/pkg/validate/checks.go).
use sealed_auction_fce.Prelude.{not, [], ◌∷◌, String, is_empty, if◌then◌else◌}
use sealed_auction_fce.Report.{pass, fail, skip, CheckResult, Report, add}
use sealed_auction_fce.Checks.{Env, result_of, matches_hex}
use sealed_auction_fce.Checks.EnvFile.{parse_extension_env}
use sealed_auction_fce.Checks.Tee.{check_url}

-- E1: INSTRUCTION_SENDER valid.
unfoldable pub check_e1 : Env → String → CheckResult
check_e1 env path =
    let check = result_of "test" "E1" "INSTRUCTION_SENDER valid" in
    let sender = (parse_extension_env env path).1 in
    if is_empty path
    then check skip "no --config provided" ""
    else if env.not_exist path
    then check skip "extension.env not found — run pre-build.sh first" ""
    else if is_empty sender
    then check fail "INSTRUCTION_SENDER not set — run pre-build.sh"
        "Run scripts/pre-build.sh to deploy and register the extension"
    else if not (matches_hex 40 sender)
    then check fail "INSTRUCTION_SENDER malformed"
        "Delete config/extension.env and re-run scripts/pre-build.sh"
    else check pass sender ""

-- E3: the proxy, for polling results.
unfoldable pub check_e3 : Env → CheckResult
unfolding check_url
check_e3 env =
    check_url env (result_of "test" "E3" "proxy reachable for test results")
      (env.getenv "EXT_PROXY_URL") "EXT_PROXY_URL not set"
      ("proxy reachable for test result polling" ∷ [])
      ("proxy not reachable — test results cannot be polled" ∷ [])
      "Start the proxy or check EXT_PROXY_URL"

unfoldable pub check_e6 : CheckResult
check_e6 =
    result_of "test" "E6" "OPType/OPCommand alignment info" pass
      "OPType/OPCommand hashes are validated at runtime — if a 501 error occurs, check the hash values in the error message"
      ""

unfoldable pub register_test_checks : Env → Report → String → Report
unfolding check_e1 check_e3 check_e6
register_test_checks env r path = add (add (add r (check_e1 env path)) (check_e3 env)) check_e6

unfoldable pub register_stub_checks : Report → String → String → String → Report
register_stub_checks r step id_range name =
    add r (result_of step id_range name skip "not yet implemented" "")
