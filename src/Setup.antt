-- ===== src/Setup.antt =====
-- The set-up of an extension on chain (tools/pkg/fccutils/extension.go, governance.go, and
-- `AddTeeVersion` with `StringToBytes32` of registration.go). Log lines are left out.
pub mod Version
pub mod Extend
pub mod Govern
use sealed_auction_fce.Prelude.{
  ℕ, Bool, true, false, ◌||◌, Option, none, some, List, [], ◌∷◌, String, Result, ok, err, map_err,
  fail_if, is_empty, sprintf, ◌==◌, ltb, length, if◌then◌else◌, pos, to_string,
}
use sealed_auction_fce.Extension.Types.{Address, Hash, Bytes}
use sealed_auction_fce.Chain.{
  Log, Call, Tx, Outside, Act, Receipt, done, stop, lift, andthen, on_error, wrap, perform,
  check_tx, send, is_machine_owner, is_project_owner, is_key_type_supported, latest_governance_hash,
  register_extension, allow_machine_owners, allow_project_owners, add_key_types, set_governance,
  ◌>>=◌, ◌>>◌,
}
use sealed_auction_fce.Registration.{Library, Support}

abbrev prefixed : String → String → String
prefixed text e = sprintf (text ∷ e ∷ [])

abbrev owners_unset : String → ℕ → String → String
owners_unset text id e =
    sprintf
      (text ∷ " (extension exists as ID " ∷ to_string (pos id) ∷ " but owners not set): " ∷ e ∷ [])

abbrev few_logs : ℕ → String
few_logs n = sprintf (
    "expected at least 2 logs from Register() transaction, got "
    ∷ to_string (pos n)
    ∷ " — the registry contract may have changed or be behind a proxy"
    ∷ [])

-- The extension id in the two logs of a registration.
unfoldable pub registered_id : Library → Receipt → Result ℕ
registered_id lib receipt = elim receipt.logs [
  | [] ↦ err (few_logs (length receipt.logs))
  | first ∷ rest ↦ elim rest [
    | [] ↦ err (few_logs (length receipt.logs))
    | second ∷ others ↦ elim (lib.parse_extension_registered first) [
      | err e ↦ err (prefixed "failed to parse TeeExtensionRegistered event: " e)
      | ok id ↦ elim (lib.parse_contracts_set second) [
        | err e ↦ err (prefixed "failed to parse TeeExtensionContractsSet event: " e)
        | ok u ↦ ok id
      ]
    ]
  ]
]

-- The event in the first log of a receipt.
unfoldable pub first_event :
    (Log → Result (Unit {0})) → String → String → Receipt → Result (Unit {0})
first_event parse name event receipt = elim receipt.logs [
  | [] ↦ err (sprintf ("no logs in " ∷ name ∷ " transaction — unexpected" ∷ []))
  | first ∷ rest ↦
      map_err (prefixed (sprintf ("failed to parse " ∷ event ∷ " event: " ∷ []))) (parse first)
]

module _ (lib : Library) (out : Outside) (s : Support) where
  -- `registerExtension`.
  unfoldable pub register_new_extension : Address → Address → Act ℕ
  register_new_extension sender state_verifier = do
    hash ←
        wrap (prefixed "TeeExtensionRegistry.Register failed: ")
          (perform out (send s.prv 0 (register_extension state_verifier sender)))
    receipt ← wrap (prefixed "Register transaction failed: ") (check_tx out hash)
    lift (registered_id lib receipt)

  -- `allowTeeMachineOwners`.
  unfoldable pub allow_tee_machine_owners : ℕ → List Address → Act (Unit {0})
  allow_tee_machine_owners extension_id owners = do
    hash ←
        wrap (prefixed "AddAllowedTeeMachineOwners failed: ")
          (perform out (send s.prv 0 (allow_machine_owners extension_id owners)))
    receipt ← wrap (prefixed "AddAllowedTeeMachineOwners transaction failed: ") (check_tx out hash)
    lift (
        first_event lib.parse_machine_owners_added "AddAllowedTeeMachineOwners"
          "AllowedTeeMachineOwnersAdded" receipt)

  -- `allowTeeProjectManagerOwners`.
  unfoldable pub allow_tee_project_manager_owners : ℕ → List Address → Act (Unit {0})
  allow_tee_project_manager_owners extension_id owners = do
    hash ←
        wrap (prefixed "AddAllowedTeeWalletProjectOwners failed: ")
          (perform out (send s.prv 0 (allow_project_owners extension_id owners)))
    receipt ←
        wrap (prefixed "AddAllowedTeeWalletProjectOwners transaction failed: ") (check_tx out hash)
    lift (
        first_event lib.parse_project_owners_added "AddAllowedTeeWalletProjectOwners"
          "AllowedTeeWalletProjectOwnersAdded" receipt)

  -- `AddSupportedKeyTypes`, with `addSupportedKeyTypesTx`.
  unfoldable pub add_supported_key_types : ℕ → List Hash → Act (Unit {0})
  add_supported_key_types extension_id key_types = do
    lift (lib.transactor s.prv s.chain_id)
    hash ← perform out (send s.prv 0 (add_key_types extension_id key_types))
    receipt ← check_tx out hash
    done tt

  -- The steps 2, 3 and 4 of `SetupExtension`: each is skipped when the chain has its effect already.
  unfoldable pub ensure_machine_owner : ℕ → Address → Act (Unit {0})
  ensure_machine_owner id deployer = do
    already ←
        wrap (prefixed "failed checking TEE machine owner status: ")
          (perform out (is_machine_owner id deployer))
    (if already
        then done tt
        else wrap (owners_unset "failed adding TEE machine owners" id)
            (allow_tee_machine_owners id (deployer ∷ [])))

  unfoldable pub ensure_project_owner : ℕ → Address → Act (Unit {0})
  ensure_project_owner id deployer = do
    already ←
        wrap (prefixed "failed checking wallet project owner status: ")
          (perform out (is_project_owner id deployer))
    (if already
        then done tt
        else wrap (owners_unset "failed adding wallet project owners" id)
            (allow_tee_project_manager_owners id (deployer ∷ [])))

  unfoldable pub ensure_key_type : ℕ → Act (Unit {0})
  ensure_key_type id = do
    supported ← perform out (is_key_type_supported id lib.evm_type)
    if supported then done tt else add_supported_key_types id (lib.evm_type ∷ [])

  -- `SetupExtension`.
  unfoldable pub setup_extension : Address → Address → Act ℕ
  setup_extension sender state_verifier = do
    let deployer = lib.key_address s.prv
    lift (lib.transactor s.prv s.chain_id)
    id ← register_new_extension sender state_verifier
    ensure_machine_owner id deployer
    ensure_project_owner id deployer
    ensure_key_type id
    done id

  abbrev governance_ids_text : ℕ → ℕ → String
  governance_ids_text threshold count = sprintf (
      "invalid GOVERNANCE_THRESHOLD "
      ∷ to_string (pos threshold)
      ∷ " for "
      ∷ to_string (pos count)
      ∷ " signer(s)"
      ∷ [])

  unfoldable pub send_governance : ℕ → ℕ → List Address → ℕ → Act (Unit {0})
  send_governance prv extension_id signers threshold = do
    lift (lib.transactor prv s.chain_id)
    hash ←
        wrap (prefixed "SetNewTeeGovernance failed: ")
          (perform out (send prv 0 (set_governance extension_id signers threshold)))
    receipt ← check_tx out hash
    done tt

  -- `SetTeeGovernance`; a failed look-up of the current hash does not stop it.
  unfoldable pub set_tee_governance : ℕ → ℕ → List Address → ℕ → Act (Unit {0})
  set_tee_governance prv extension_id signers threshold = do
    lift (
        fail_if (length signers == 0)
          "at least one governance signer is required (set GOVERNANCE_SIGNERS)")
    lift (
        fail_if (threshold == 0 || ltb (length signers) threshold)
          (governance_ids_text threshold (length signers)))
    desired ←
        lift
          (map_err (prefixed "computing governance hash: ") (lib.governance_hash signers threshold))
    on_error (perform out (latest_governance_hash extension_id))
        (λ e. send_governance prv extension_id signers threshold)
        (λ current.
          if current == desired
          then done tt
          else send_governance prv extension_id signers threshold)
