-- ===== src/Registration/Diagnose.antt =====
-- The diagnosis of a request for an availability check that could not be sent
-- (tools/pkg/fccutils/diag.go).
use sealed_auction_fce.Prelude.{
  ℕ, [], ◌∷◌, String, ok, err, sprintf, length, ltb, ◌==◌, if◌then◌else◌,
}
use sealed_auction_fce.Revert.Selector.{
  extract_revert_data, explain, diagnosis_wording, diagnosis_sources,
}
use sealed_auction_fce.Chain.{Tx, Outside, Act, done, on_error, perform, simulate}
use sealed_auction_fce.Registration.{Library}

module _ (lib : Library) where
  -- The line that is logged for the error of the eth_call.
  unfoldable pub diagnosis_of : String → String
  diagnosis_of call_error =
      let revert_data =
        extract_revert_data lib.diagnosis.from_hex (lib.diagnosis.payload call_error) in
      if 0 == length revert_data
      then sprintf ("diag: eth_call error has no revert data: " ∷ call_error ∷ [])
      else if ltb (length revert_data) 4
      then sprintf (
          "diag: revert data too short to contain a selector: 0x"
          ∷ lib.reverts.encode_hex revert_data
          ∷ [])
      else explain lib.reverts (diagnosis_wording lib.diagnosis.quote)
          (diagnosis_sources lib.diagnosis lib.register_abi) revert_data

  -- `diagAvailabilityCheckRevert`: the same call is made as an eth_call; what is returned is the last
  -- line logged.
  unfoldable pub diagnose : Outside → ℕ → Tx → Act String
  diagnose out value tx = elim lib.diagnosis.verification_abi [
    | err e ↦ done (sprintf ("diag: load Verification ABI: " ∷ e ∷ []))
    | ok errors ↦ elim (lib.pack_register tx) [
      | err e ↦ done (sprintf ("diag: pack calldata: " ∷ e ∷ []))
      | ok calldata ↦
          on_error (perform out (simulate value tx)) (λ e. done (diagnosis_of e))
            (λ result.
              done ("diag: eth_call unexpectedly succeeded — revert may be tx-time/gas-related"))
    ]
  ]
