-- ===== src/Registration/Steps.antt =====
-- The three requests of a registration (tools/pkg/fccutils/registration.go): PreRegistration,
-- RequestTeeAttestation and RequestFTDCAvailabilityCheck.

use sealed_auction_fce.Prelude.{
  ℕ, List, [], ◌∷◌, String, Result, ok, err, map_err, fail_if, sprintf, is_empty, ◌==◌, ltb, length,
  not, if◌then◌else◌,
}
use sealed_auction_fce.Extension.Types.{Address, Hash, Bytes}
use sealed_auction_fce.Revert.{AbiError, decode_revert_reason, simulated_reason, match_custom_error}
use sealed_auction_fce.Chain.{
  Signature, Tx, Outside, Act, Receipt, done, stop, lift, on_error, wrap, perform, check_tx, send,
  simulate, register_machine, request_attestation, request_availability_check, ◌>>=◌, ◌>>◌,
}
use sealed_auction_fce.Registration.{Library, Support, TeeInfo}
use sealed_auction_fce.Registration.Diagnose.{diagnose}

abbrev pub request_value : ℕ
request_value = 1000000000

abbrev pub take : ℕ → Bytes → Bytes
take ℕ.zero bytes = []
take (ℕ.suc n) [] = []
take (ℕ.suc n) (b ∷ bytes) = b ∷ take n bytes

abbrev pub drop : ℕ → Bytes → Bytes
drop ℕ.zero bytes = bytes
drop (ℕ.suc n) [] = []
drop (ℕ.suc n) (b ∷ bytes) = drop n bytes

-- The three slices of `sigVRS`; a slice out of range is a panic, which ends the run with this text.
unfoldable pub signature_of : Bytes → Result Signature
signature_of [] = err "panic: index out of range"
signature_of (v ∷ bytes) =
    if ltb (length bytes) 64
    then err "panic: slice bounds out of range"
    else ok (record { v = v; r = take 32 bytes; s = take 32 (drop 32 bytes) })

-- The instruction id in the first log of a receipt that must have `count` logs.
unfoldable pub instruction_of : Library → ℕ → String → Receipt → Result Hash
instruction_of lib count missing receipt = elim receipt.logs [
  | [] ↦ err missing
  | first ∷ rest ↦
      if ltb (length (first ∷ rest)) count
      then err missing
      else map_err (λ e. sprintf ("failed to parse TeeInstructionsSent event: " ∷ e ∷ []))
          (lib.parse_instructions_sent first)
]

-- The challenge and the instruction id in the two logs of a pre-registration.
unfoldable pub registered_of : Library → Receipt → Result (Hash × Hash)
registered_of lib receipt = elim receipt.logs [
  | [] ↦ err "unexpected logs, this should not happen"
  | first ∷ rest ↦ elim rest [
    | [] ↦ err "unexpected logs, this should not happen"
    | second ∷ others ↦ elim (lib.parse_attestation_requested second) [
      | err e ↦ err (sprintf ("failed to parse TeeAttestationRequested event: " ∷ e ∷ []))
      | ok challenge ↦ elim (lib.parse_instructions_sent first) [
        | err e ↦ err (sprintf ("failed to parse TeeInstructionsSent event: " ∷ e ∷ []))
        | ok instruction_id ↦ ok (challenge, instruction_id)
      ]
    ]
  ]
]

-- The reason that a failed `register` is reported with: the custom error that the simulated call
-- names, else the reason in the error, else what the simulation returned, else the error itself.
unfoldable pub reason_of : Library → List AbiError → String → Result Bytes → String
reason_of lib errors e simulated =
    let raw = simulated_reason lib.reverts simulated in
    let named = match_custom_error lib.reverts errors raw in
    let reason = decode_revert_reason lib.reverts e in
    if not (is_empty named)
    then named
    else if not (is_empty reason)
    then reason
    else if not (is_empty raw)
    then raw
    else e

abbrev plain_reason : Library → String → String
plain_reason lib e =
    let reason = decode_revert_reason lib.reverts e in if is_empty reason then e else reason

abbrev pub reverted : String → String
reverted reason = sprintf ("register() reverted: " ∷ reason ∷ [])

module _ (lib : Library) (out : Outside) (s : Support) where
  -- The error branch of `Register`.
  unfoldable pub register_failed : Tx → String → Act Hash
  register_failed tx e = elim lib.register_abi [
    | err t ↦ stop (reverted (plain_reason lib e))
    | ok errors ↦ elim (lib.pack_register tx) [
      | err t ↦ stop (reverted (plain_reason lib e))
      | ok calldata ↦
          on_error (perform out (simulate request_value tx))
            (λ t. stop (reverted (reason_of lib errors e (err t))))
            (λ result. stop (reverted (reason_of lib errors e (ok result))))
    ]
  ]

  unfoldable pub send_register : Tx → Act Hash
  send_register tx =
      on_error (perform out (send s.prv request_value tx)) (λ e. register_failed tx e)
        (λ hash. done hash)

  abbrev pub machine_registration : TeeInfo → String → Address → Signature → Tx
  machine_registration info host_url proxy signature =
      register_machine info.machine_data signature proxy host_url (lib.key_address s.prv)

  -- `PreRegistration`: the challenge and the instruction id.
  unfoldable pub pre_registration : String → Address → TeeInfo → Act (Hash × Hash)
  pre_registration host_url proxy info = do
    lift (lib.transactor s.prv s.chain_id)
    lift (fail_if (not (length info.data_signature == 65)) "signature error")
    vrs ← lift (lib.transform_signature info.data_signature)
    signature ← lift (signature_of vrs)
    hash ← send_register (machine_registration info host_url proxy signature)
    receipt ← check_tx out hash
    lift (registered_of lib receipt)

  -- `RequestTeeAttestation`.
  unfoldable pub request_tee_attestation : Address → Act Hash
  request_tee_attestation tee = do
    lift (lib.transactor s.prv s.chain_id)
    hash ←
        wrap (λ e. sprintf ("error: " ∷ e ∷ []))
          (perform out (send s.prv request_value (request_attestation tee (lib.key_address s.prv))))
    receipt ← check_tx out hash
    lift (instruction_of lib 2 "unexpected logs, this should not happen" receipt)

  -- `RequestFTDCAvailabilityCheck`; the owner of the proof is the claim-back address.
  unfoldable pub request_ftdc_availability_check : Address → Address → Hash → Act Hash
  request_ftdc_availability_check tee external attestation = do
    lift (lib.transactor s.prv s.chain_id)
    let owner = lib.key_address s.prv
    let request = request_availability_check tee attestation external owner owner
    hash ←
        on_error (perform out (send s.prv request_value request))
          (λ e. diagnose lib out request_value request >>= (λ line. stop e)) (λ hash. done hash)
    receipt ← check_tx out hash
    lift (instruction_of lib 1 "no logs found in receipt" receipt)
