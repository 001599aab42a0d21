-- ===== src/Tests/ToolsTheorems.antt =====
-- The theorems about the tools, each applied to the inputs of `Tools`.
use sealed_auction_fce.Prelude.{
  ◌↔◌, true, ◌≤◌, ◌≡◌, ◌+◌, refl, Bool, false, some, [], ◌∷◌, ok, err, All, length, ltb, arith,
}
use sealed_auction_fce.Extension.Types.{Bytes}
use sealed_auction_fce.Chain.{andthen, on_error, perform}
use sealed_auction_fce.Chain.Journal.{Added}
use sealed_auction_fce.Registration.{tee_info}
use sealed_auction_fce.Registration.Policy.{
  check_ftdc_proxy_policy_consistency, compare_policies, policy_verdict, policy_in_sync,
  out_of_sync_error,
}
use sealed_auction_fce.Registration.Node.{register_node}
use sealed_auction_fce.Registration.Node.Resume.{Sent, register_node-Allowed}
use sealed_auction_fce.Registration.Progress.{OutOfSync, policy_check_refuses}
use sealed_auction_fce.Setup.{set_tee_governance, setup_extension}
use sealed_auction_fce.Setup.Version.{string_to_bytes32}
use sealed_auction_fce.Commands.Audit.{bytes32_to_string, bytes32_to_string-string_to_bytes32}
use sealed_auction_fce.Setup.Govern.{
  Governs, Changes, set_tee_governance-Governs, set_tee_governance-Changes,
}
use sealed_auction_fce.Setup.Extend.{Deploys, setup_extension-Deploys}
use sealed_auction_fce.Report.{Status, no_tally, tally, has_failures, is_fail, CheckResult}
use sealed_auction_fce.Report.Counts.{count_status, summary_counts}
use sealed_auction_fce.Checks.EnvFile.{parse_extension_env, scan_vars}
use sealed_auction_fce.Checks.Agree.{pair_of, parse_extension_env-scan_vars}
use sealed_auction_fce.Checks.Deploy.{
  register_deploy_checks, zero_checks, code_checks, check_d3, check_d1, address_not_zero,
  address_has_code, check_deployer_key_source, check_funds, key_has_funds, check_chain_id,
  check_env_file,
}
use sealed_auction_fce.Checks.Sound.{Deployed, Funded, register_deploy_checks_sound}
use sealed_auction_fce.Revert.{trim_0x, match_custom_error, simulated_reason}
use sealed_auction_fce.Revert.Raw.{Declares, match_custom_error-simulated_reason}
use sealed_auction_fce.Registration.Production.{action_result, repeats}
use sealed_auction_fce.Registration.Polling.{count_gets, count_gets-action_result}
use sealed_auction_fce.Checks.{matches_hex}
use sealed_auction_fce.Checks.Register.{check_r7}
use sealed_auction_fce.Checks.Unique.{Two, has_warning, visited, check_r7_warns}
use sealed_auction_fce.Tests.Tools.{
  raw_reverts, challenge_expired, five_bytes, library, outside, resumed, support, info, client,
  registry, env, env_lines, report,
}

register_node-Allowed_example :
    Sent library outside support resumed "rRap" resumed
      (register_node library outside support info "http://host" "http://ftdc" 9 "rRap" "" resumed).1
register_node-Allowed_example =
    register_node-Allowed library outside support resumed "rRap" info "http://host" "http://ftdc" 9
      ""

-- The chain is at epoch 3, the proxy at 7.
refused :
    (check_ftdc_proxy_policy_consistency library outside "http://ftdc" resumed).0
    ≡ err (out_of_sync_error 3 7)
unfolding check_ftdc_proxy_policy_consistency compare_policies policy_verdict policy_in_sync
    on_error andthen perform tee_info
refused = refl

policy_check_refuses_example : OutOfSync library outside "http://ftdc" resumed
policy_check_refuses_example =
    policy_check_refuses library outside "http://ftdc" resumed (out_of_sync_error 3 7) refused

set_tee_governance-Governs_example :
    Added
      (Governs 71 5 (81 ∷ 82 ∷ []) 2)
      resumed
      (set_tee_governance library outside support 71 5 (81 ∷ 82 ∷ []) 2 resumed).1
set_tee_governance-Governs_example =
    set_tee_governance-Governs library outside support 71 5 (81 ∷ 82 ∷ []) 2 resumed

setup_extension-Deploys_example :
    Added
      (Deploys library 71 91 92)
      resumed
      (setup_extension library outside support 91 92 resumed).1
setup_extension-Deploys_example = setup_extension-Deploys library outside support 91 92 resumed

bytes32_to_string-string_to_bytes32_example :
    (packed : Bytes) × (string_to_bytes32 (118 ∷ 49 ∷ []) ≡ ok packed)
    × (length packed ≡ 32)
    × (bytes32_to_string (λ text. text) packed ≡ 118 ∷ 49 ∷ [])
bytes32_to_string-string_to_bytes32_example =
    bytes32_to_string-string_to_bytes32 (λ text. text) (118 ∷ 49 ∷ []) (omega arith) (omega arith)

summary_counts_example :
    let t = tally report no_tally in
    (t.passed ≡ count_status Status.pass report)
    × (t.warning ≡ count_status Status.warn report)
    × (t.failed ≡ count_status Status.fail report)
    × (t.skipped ≡ count_status Status.skip report)
    × (t.passed + t.warning + t.failed + t.skipped ≡ length report)
    × (has_failures report ≡ ltb 0 t.failed)
summary_counts_example = summary_counts report

abbrev failed : CheckResult → Bool
failed res = is_fail res.status

parse_extension_env-scan_vars_example :
    parse_extension_env env "extension.env" ≡ pair_of (scan_vars env_lines [])
parse_extension_env-scan_vars_example =
    parse_extension_env-scan_vars env "extension.env" env_lines refl

no_failures :
    has_failures (register_deploy_checks env [] (some client) (some 71) (("vault", 101) ∷ []) "")
    ≡ false
unfolding register_deploy_checks zero_checks code_checks check_d3 check_d1 address_not_zero
    address_has_code check_deployer_key_source check_funds key_has_funds check_chain_id
    check_env_file has_failures
no_failures = refl

register_deploy_checks_sound_example :
    All (Deployed client) (("vault", 101) ∷ []) × Funded client (some 71)
register_deploy_checks_sound_example =
    register_deploy_checks_sound env client (some 71) (("vault", 101) ∷ []) "" no_failures

bare_hex : trim_0x "0102030405" ≡ "0102030405"
unfolding trim_0x
bare_hex = refl

match_custom_error-simulated_reason_example :
    Declares raw_reverts (challenge_expired ∷ []) five_bytes (
      match_custom_error raw_reverts
        (challenge_expired ∷ [])
        (simulated_reason raw_reverts (ok five_bytes)))
match_custom_error-simulated_reason_example =
    match_custom_error-simulated_reason raw_reverts (challenge_expired ∷ []) five_bytes
      "no selector" (omega arith) refl bare_hex refl

count_gets-action_result_example :
    count_gets (action_result library outside "http://ftdc" 23 resumed).1.journal
    ≤ count_gets resumed.journal + repeats
count_gets-action_result_example = count_gets-action_result library outside "http://ftdc" 23 resumed

-- The hash on chain is 0, that of the signers is 41.
set_tee_governance-Changes_example :
    Added
      (Changes library outside support 71 5 (81 ∷ 82 ∷ []) 2 resumed)
      resumed
      (set_tee_governance library outside support 71 5 (81 ∷ 82 ∷ []) 2 resumed).1
set_tee_governance-Changes_example =
    set_tee_governance-Changes library outside support 71 5 (81 ∷ 82 ∷ []) 2 resumed

-- Three extensions are registered, each with a sender of its own.
check_r7_warns_example :
    (has_warning (check_r7 env (some registry) "0x000000000000000000000000000000000000000a") ≡ true)
    ↔ (matches_hex 40 "0x000000000000000000000000000000000000000a" ≡ true)
      × Two registry
          (env.hex_to_address "0x000000000000000000000000000000000000000a")
          (visited env registry "0x000000000000000000000000000000000000000a")
          0
check_r7_warns_example = check_r7_warns env registry "0x000000000000000000000000000000000000000a"
