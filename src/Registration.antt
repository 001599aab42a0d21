-- ===== src/Registration.antt =====
-- Registration of a TEE machine (tools/pkg/fccutils/registration.go): the parameters of the model, the
-- saved state, and what the steps share.
pub mod Policy
pub mod Diagnose
pub mod Proxy
pub mod Steps
pub mod Production
pub mod Allowed
pub mod Node
pub mod Progress
pub mod Polling
use Prim.Native.String.{◌++◌ as append}
use sealed_auction_fce.Prelude.{
  ℕ, Bool, true, false, ◌||◌, Option, none, some, List, [], ◌∷◌, ◌++◌, String, Result, ok, err,
  map_err, sprintf, str_eq, ◌==◌, ltb, length, if◌then◌else◌,
}
use sealed_auction_fce.Extension.Types.{Address, Hash, Bytes}
use sealed_auction_fce.Revert.{RevertLibrary, AbiError}
use sealed_auction_fce.Revert.Selector.{Diagnosis}
use sealed_auction_fce.Chain.{
  Log, MachineData, AvailabilityProof, Signature, Call, Tx, Outside, Act, World, HttpReply, done,
  stop, lift, andthen, on_error, wrap, perform, read_file, write_file, sleep, ◌>>=◌, ◌>>◌,
}

-- The fields of types.SignedTeeInfoResponse that the tools read.
pub record TeeInfo : Type 0 where
  pub public_key : Bytes
  pub chain_id : ℕ
  pub info : Bytes
  pub attestation : String
  pub last_signing_policy_id : ℕ  -- uint32
  pub machine_data : MachineData
  pub data_signature : Bytes
  pub proxy_signature : Bytes

pub record RegistrationState : Type 0 where
  pub completed_steps : String
  pub tee_attest_instruction_id : Hash
  pub instruction_id : Hash

-- The signing key and the chain of support.Support.
pub record Support : Type 0 where
  pub prv : ℕ
  pub chain_id : ℕ

-- The functions of go-ethereum, go-flare-common, tee-node and the standard library that are called.
pub record Library : Type 0 where
  pub transactor : ℕ → ℕ → Result (Unit {0})
  pub key_address : ℕ → Address
  pub parse_pub_key : Bytes → Result Bytes
  pub pub_key_address : Bytes → Address
  pub tee_info_hash : TeeInfo → Result Bytes
  pub proxy_payload_hash : ℕ → Bytes → Result Bytes
  pub text_hash : Bytes → Bytes
  pub sig_to_pub : Bytes → Bytes → Result Bytes
  pub transform_signature : Bytes → Result Bytes
  pub parse_attestation_requested : Log → Result Hash
  pub parse_instructions_sent : Log → Result Hash
  pub hex_to_hash : String → Hash
  pub hash_hex : Hash → String
  pub marshal_state : RegistrationState → Result Bytes
  pub unmarshal_state : Bytes → Result RegistrationState
  pub unmarshal_tee_info : Bytes → Result TeeInfo
  pub unmarshal_proof : Bytes → Result AvailabilityProof
  pub register_abi : Result (List AbiError)
  pub pack_register : Tx → Result Bytes
  pub governance_hash : List Address → ℕ → Result Hash
  pub parse_extension_registered : Log → Result ℕ
  pub parse_contracts_set : Log → Result (Unit {0})
  pub parse_machine_owners_added : Log → Result (Unit {0})
  pub parse_project_owners_added : Log → Result (Unit {0})
  pub evm_type : Hash
  pub reverts : RevertLibrary
  pub diagnosis : Diagnosis

-- `strings.Contains(s, step)` for the one-letter name of a step.
unfoldable pub contains : String → String → Bool
contains String.[] step = false
contains (String.◌∷◌ c s) step = str_eq (String.◌∷◌ c "") step || contains s step

module _ (lib : Library) where
  -- `TeeProxyId`.
  unfoldable pub tee_proxy_id : TeeInfo → Result (Address × Address)
  tee_proxy_id info = elim (lib.parse_pub_key info.public_key) [
    | err e ↦ err e
    | ok key ↦ elim (lib.tee_info_hash info) [
      | err e ↦ err e
      | ok hash ↦ elim (lib.proxy_payload_hash info.chain_id hash) [
        | err e ↦ err e
        | ok payload ↦ elim (lib.sig_to_pub (lib.text_hash payload) info.proxy_signature) [
          | err e ↦ err e
          | ok proxy_key ↦ ok (lib.pub_key_address key, lib.pub_key_address proxy_key)
        ]
      ]
    ]
  ]

  module _ (out : Outside) where
    abbrev no_state : RegistrationState
    no_state = record { completed_steps = ""; tee_attest_instruction_id = 0; instruction_id = 0 }

    unfoldable pub read_state : Bytes → Act RegistrationState
    read_state content = do
      wrap (λ e. sprintf ("failed to read state file: " ∷ e ∷ [])) (perform out read_file)
      lift (
          map_err (λ e. sprintf ("failed to parse state file: " ∷ e ∷ []))
            (lib.unmarshal_state content))

    -- `loadState`; there is one path, that of the world's file.
    unfoldable pub load_state : Act RegistrationState
    load_state w = elim w.state_file [
      | none ↦ (ok no_state, w)
      | some content ↦ read_state content w
    ]

    -- `saveState`.
    unfoldable pub save_state : RegistrationState → Act (Unit {0})
    save_state state = do
      content ←
          lift (
            map_err (λ e. sprintf ("failed to marshal state: " ∷ e ∷ [])) (lib.marshal_state state))
      wrap (λ e. sprintf ("failed to write state file: " ∷ e ∷ []))
          (perform out (write_file content))

    -- A call whose error is only logged.
    abbrev pub try {ℓ} : {A : Type ℓ} → Act (Unit {0}) → Act A → Act A
    try m next = on_error m (λ e. next) (λ u. next)

    -- `TeeInfo`.
    unfoldable pub tee_info : String → Act TeeInfo
    tee_info node_url = do
      reply ← perform out (Call.http_get (append node_url "/info"))
      lift (lib.unmarshal_tee_info reply.body)
