-- ===== src/Checks/Deploy.antt =====
-- `RegisterDeployChecks` with its helpers (tools/pkg/validate/checks.go, validate.go).
use Prim.Native.String.{◌++◌ as append}
use sealed_auction_fce.Prelude.{
  Bool, ℕ, not, Option, none, some, List, [], ◌∷◌, ◌++◌, String, sprintf, is_empty, if◌then◌else◌,
  ◌==◌, ℤ, pos, ltb_ℤ, to_string, Result, ok, err,
}
use sealed_auction_fce.Extension.Types.{Address}
use sealed_auction_fce.Report.{pass, warn, fail, CheckResult, Report}
use sealed_auction_fce.Checks.{Env, Client, result_of}
use sealed_auction_fce.Checks.EnvFile.{check_extension_env_format}
use sealed_auction_fce.Checks.Services.{is_local}

-- `AddressNotZero`.
unfoldable pub address_not_zero : Env → Address → String → Result (Unit {0})
address_not_zero env addr label =
    if addr == 0
    then err (
        sprintf (
          label ∷ " is the zero address (" ∷ env.address_hex addr ∷ ") in the addresses file" ∷ []))
    else ok tt

abbrev no_code : Env → Address → String → String
no_code env addr label = sprintf (
    label
    ∷ " at "
    ∷ env.address_hex addr
    ∷ " has no deployed code. This address will be set as immutable in the contract constructor and cannot be changed. "
    ∷ "Check your deployed-addresses.json file — are you on the right network?"
    ∷ [])

-- `AddressHasCode`.
unfoldable pub address_has_code : Env → Option Client → Address → String → Result (Unit {0})
address_has_code env none addr label =
    err (sprintf ("cannot check " ∷ label ∷ ": no chain client connected" ∷ []))
address_has_code env (some client) addr label = elim (client.code_at addr) [
  | err e ↦ err (sprintf ("cannot check " ∷ label ∷ ": " ∷ e ∷ []))
  | ok code ↦ elim code [ [] ↦ err (no_code env addr label) | b ∷ bytes ↦ ok tt ]
]

-- 0.01 ETH.
abbrev pub min_deploy_balance : ℤ
min_deploy_balance = pos 10000000000000000

-- `KeyHasFunds`, for the address of the key.
unfoldable pub key_has_funds : Env → Option Client → Address → ℤ → Result (Unit {0})
key_has_funds env none addr min_wei = err "cannot check deployer balance: no chain client connected"
key_has_funds env (some client) addr min_wei = elim (client.balance_at addr) [
  | err e ↦ err (append "cannot check deployer balance: " e)
  | ok balance ↦
      if ltb_ℤ balance min_wei
      then err (
          sprintf (
            "deployer "
            ∷ env.address_hex addr
            ∷ " has insufficient funds (balance: "
            ∷ to_string balance
            ∷ " wei, minimum required: "
            ∷ to_string min_wei
            ∷ " wei). Fund this account before deploying"
            ∷ []))
      else ok tt
]

-- D3 and D1 of one address.
unfoldable pub check_d3 : Env → String → Address → CheckResult
unfolding address_not_zero
check_d3 env label addr =
    let check = result_of "deploy" "D3" (append label " address not zero") in
    elim (address_not_zero env addr label) [
      | err e ↦ check fail e "Re-run the deploy script or check deployed-addresses.json"
      | ok u ↦ check pass (env.address_hex addr) ""
    ]

unfoldable pub check_d1 : Env → Option Client → String → Address → CheckResult
unfolding address_has_code
check_d1 env client label addr =
    let check = result_of "deploy" "D1" (append label " has deployed code") in
    elim (address_has_code env client addr label) [
      | err e ↦ check fail e "Deploy contracts or check CHAIN_URL / deployed-addresses.json"
      | ok u ↦ check pass (append "code found at " (env.address_hex addr)) ""
    ]

-- The two loops over the map of addresses, in one order of its entries.
unfoldable pub zero_checks : Env → List (String × Address) → List CheckResult
unfolding check_d3
zero_checks env [] = []
zero_checks env ((label, addr) ∷ addresses) = check_d3 env label addr ∷ zero_checks env addresses

unfoldable pub code_checks : Env → Option Client → List (String × Address) → List CheckResult
unfolding check_d1
code_checks env client [] = []
code_checks env client ((label, addr) ∷ addresses) =
    let rest = code_checks env client addresses in
    if addr == 0 then rest else check_d1 env client label addr ∷ rest

-- `IsUsingDevKey`.
unfoldable pub is_using_dev_key : Env → Bool
is_using_dev_key env = is_empty (env.getenv "DEPLOYMENT_PRIVATE_KEY")

-- `CheckDeployerKeySource`.
unfoldable pub check_deployer_key_source : Env → CheckResult
check_deployer_key_source env =
    let check = result_of "deploy" "D5" "deployer key source" in
    if not (is_empty (env.getenv "DEPLOYMENT_PRIVATE_KEY"))
    then check pass "DEPLOYMENT_PRIVATE_KEY is set" ""
    else if is_local (env.getenv "LOCAL_MODE")
    then check pass "using Hardhat dev key (LOCAL_MODE)" ""
    else check warn
        "DEPLOYMENT_PRIVATE_KEY not set — using Hardhat dev key which has no funds on Coston2"
        "Set DEPLOYMENT_PRIVATE_KEY in .env to a funded account on the target network"

-- D5, when there are a key and a client.
unfoldable pub check_funds : Env → Option Client → Option Address → List CheckResult
unfolding key_has_funds
check_funds env none key = []
check_funds env (some client) none = []
check_funds env (some client) (some addr) =
    let check = result_of "deploy" "D5" "deployer has sufficient funds" in
    elim (key_has_funds env (some client) addr min_deploy_balance) [
      | err e ↦ check fail e "Fund the deployer account before deploying" ∷ []
      | ok u ↦ check pass "balance above minimum threshold" "" ∷ []
    ]

-- `chainName`.
unfoldable pub chain_name : ℕ → String
chain_name id =
    if id == 31337
    then "Hardhat/Anvil (local devnet)"
    else if id == 114
    then "Coston2 (testnet)"
    else if id == 14
    then "Flare (mainnet)"
    else "unknown network"

-- `checkChainID`, when there is a client.
unfoldable pub check_chain_id : Option Client → List CheckResult
unfolding chain_name
check_chain_id none = []
check_chain_id (some client) =
    let check = result_of "deploy" "D6" "chain ID" in
    elim client.chain_id [
      | err e ↦ check fail (append "failed to get chain ID: " e) "Check CHAIN_URL" ∷ []
      | ok id ↦
          check pass (sprintf ("chain ID " ∷ to_string (pos id) ∷ " (" ∷ chain_name id ∷ ")" ∷ []))
            ""
          ∷ []
    ]

unfoldable pub check_env_file : Env → String → List CheckResult
check_env_file env path = if is_empty path then [] else check_extension_env_format env path

unfoldable pub register_deploy_checks :
    Env → Report → Option Client → Option Address → List (String × Address) → String → Report
unfolding zero_checks code_checks check_deployer_key_source check_funds check_chain_id
    check_env_file
register_deploy_checks env r client key addresses path =
    r
    ++ (zero_checks env addresses
        ++ (code_checks env client addresses
            ++ (check_deployer_key_source env
                ∷ (check_funds env client key
                    ++ (check_chain_id client ++ check_env_file env path)))))
