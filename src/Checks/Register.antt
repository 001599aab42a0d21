-- ===== src/Checks/Register.antt =====
-- `RegisterRegistrationChecks` (tools/pkg/validate/checks.go), one definition for each check.
use Prim.Native.String.{◌++◌ as append}
use sealed_auction_fce.Prelude.{
  ℕ, zero, suc, ◌%◌, ◌^◌, Bool, false, not, ◌&&◌, Option, none, some, List, [], ◌∷◌, ◌++◌, String,
  sprintf, is_empty, if◌then◌else◌, ◌==◌, ltb, length, pos, to_string, ok, err,
}
use sealed_auction_fce.Extension.Types.{Address}
use sealed_auction_fce.Report.{pass, warn, fail, skip, CheckResult, Report}
use sealed_auction_fce.Checks.{Env, Client, Registry, Allowlist, result_of, matches_hex, hex_number}
use sealed_auction_fce.Checks.EnvFile.{parse_extension_env}

-- The one result that ends the checks before they start.
abbrev whole : String → CheckResult
whole message = result_of "register" "R1-R7" "registration checks" skip message ""

-- R1: the next public extension id; the counter is nil when it was not read.
unfoldable pub check_r1 : Option Registry → List CheckResult
check_r1 none = []
check_r1 (some registry) =
    let check = result_of "register" "R1" "next public extension id" in
    elim registry.next_public_extension_id [
      | err e ↦ check fail (append "failed to query nextPublicExtensionId: " e) "" ∷ []
      | ok counter ↦
          if counter == 0
          then check warn "nextPublicExtensionId is 0 — no public extensions registered yet" "" ∷ []
          else check pass (append "nextPublicExtensionId = " (to_string (pos counter))) "" ∷ []
    ]

-- The counter that the later checks see.
unfoldable pub counter_of : Option Registry → ℕ
counter_of none = 0
counter_of (some registry) = elim registry.next_public_extension_id [ ok n ↦ n | err e ↦ 0 ]

-- R2: the instruction sender on chain.
unfoldable pub check_r2 : Env → Option Registry → ℕ → String → List CheckResult
check_r2 env none id sender = []
check_r2 env (some registry) id sender =
    let check = result_of "register" "R2" "instruction sender matches on-chain" in
    let found : List CheckResult = elim (registry.instructions_sender id) [
      | err e ↦ check fail (append "failed to query instruction sender: " e) "" ∷ []
      | ok on_chain ↦
          if on_chain == env.hex_to_address sender
          then check pass
              (sprintf
                ("on-chain sender " ∷ env.address_hex on_chain ∷ " matches extension.env" ∷ []))
              ""
            ∷ []
          else check fail
              (sprintf (
                "on-chain sender " ∷ env.address_hex on_chain ∷ " != extension.env " ∷ sender ∷ []))
              "Re-register the extension or update extension.env"
            ∷ []
    ] in
    if matches_hex 40 sender then found else []

-- R3: the deployer on the allow-list.
unfoldable pub check_r3 : Option Allowlist → Option Address → ℕ → List CheckResult
check_r3 none key id = []
check_r3 (some allowlist) none id = []
check_r3 (some allowlist) (some deployer) id =
    let check = result_of "register" "R3" "deployer is allowed TEE machine owner" in
    elim (allowlist.is_allowed_machine_owner id deployer) [
      | err e ↦ check fail (append "failed to query allowlist: " e) "" ∷ []
      | ok allowed ↦
          if allowed
          then check pass "deployer is on the TEE machine owner allowlist" "" ∷ []
          else check fail "deployer is NOT on the TEE machine owner allowlist"
              "Run the register step to add the deployer as a TEE machine owner"
            ∷ []
    ]

-- R4: the EVM key type.
unfoldable pub check_r4 : Env → Option Registry → ℕ → List CheckResult
check_r4 env none id = []
check_r4 env (some registry) id =
    let check = result_of "register" "R4" "EVM key type supported" in
    elim (registry.is_key_type_supported id env.evm_type) [
      | err e ↦ check fail (append "failed to query key type support: " e) "" ∷ []
      | ok supported ↦
          if supported
          then check pass "EVM key type is supported for this extension" "" ∷ []
          else check fail "EVM key type is NOT supported for this extension"
              "Run the register step to add EVM key type support"
            ∷ []
    ]

-- Whether the extension's sender on chain is the expected one; a failed query is passed over.
unfoldable pub sender_matches : Registry → Address → ℕ → Bool
sender_matches registry expected id = elim (registry.instructions_sender id) [
  | err e ↦ false
  | ok sender ↦ sender == expected
]

-- The loop of R7: the ids below the counter with the expected sender, in order; `left` of them are
-- not visited yet, from `i` on.
unfoldable pub matching_ids : Registry → Address → (left i : ℕ) → List ℕ
unfolding sender_matches
matching_ids registry expected zero i = []
matching_ids registry expected (suc left) i =
    let rest = matching_ids registry expected left (suc i) in
    if sender_matches registry expected i then i ∷ rest else rest

-- `Int64` of a number that is not negative: its low 64 bits with their sign, of which a negative bound
-- lets the loop make no round.
abbrev pub int64_rounds : ℕ → ℕ
int64_rounds n = let low = n % 2 ^ 64 in if ltb low (2 ^ 63) then low else 0

-- `strings.Join(ids, ", ")`.
unfoldable pub join_ids : List ℕ → String
join_ids [] = ""
join_ids (i ∷ ids) = elim ids [
  | [] ↦ to_string (pos i)
  | j ∷ more ↦ sprintf (to_string (pos i) ∷ ", " ∷ join_ids ids ∷ [])
]

-- R7: other extensions with the same sender.
unfoldable pub check_r7 : Env → Option Registry → String → List CheckResult
unfolding matching_ids
check_r7 env none sender = []
check_r7 env (some registry) sender =
    let check = result_of "register" "R7" "unique instruction sender" in
    let counter = counter_of (some registry) in
    let ids = matching_ids registry (env.hex_to_address sender) (int64_rounds counter) 0 in
    if not (counter == 0) && matches_hex 40 sender
    then if ltb 1 (length ids)
      then check warn
          (sprintf (
            "INSTRUCTION_SENDER "
            ∷ sender
            ∷ " is used by multiple extensions: "
            ∷ join_ids ids
            ∷ []))
          ""
        ∷ []
      else check pass "instruction sender is unique across registered extensions" "" ∷ []
    else []

-- The registry and the allow-list are asked only when a client is connected.
abbrev pub with_client {ℓ} : {A : Type ℓ} → Option Client → Option A → Option A
with_client none a = none
with_client (some client) a = a

-- The checks after the file was parsed.
unfoldable pub checks_of_ids :
    Env → Option Registry → Option Allowlist → Option Address → String → String → List CheckResult
unfolding check_r1 check_r2 check_r3 check_r4 check_r7
checks_of_ids env registry allowlist key ext_id sender =
    let id = hex_number ext_id in
    check_r1 registry
    ++ (if matches_hex 64 ext_id
        then check_r2 env registry id sender
          ++ (check_r3 allowlist key id
              ++ (check_r4 env registry id ++ check_r7 env registry sender))
        else result_of "register" "R2" "EXTENSION_ID format" fail
            (append "malformed EXTENSION_ID: " (env.quote ext_id))
            "Delete config/extension.env and re-run scripts/pre-build.sh"
          ∷ [])

unfoldable pub register_registration_checks :
    Env
    → Report
    → Option Client
    → Option Address
    → Option Registry
    → Option Allowlist
    → String
    → Report
unfolding checks_of_ids
register_registration_checks env r client key registry allowlist path =
    let (ext_id, sender) = parse_extension_env env path in
    if is_empty path
    then r ++ whole "no --config path provided" ∷ []
    else if is_empty ext_id && is_empty sender
    then r ++ whole "config/extension.env not found — run pre-build.sh first" ∷ []
    else r
      ++ checks_of_ids env (with_client client registry) (with_client client allowlist) key ext_id
          sender
