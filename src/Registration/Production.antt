-- ===== src/Registration/Production.antt =====
-- The proof of availability and the move to production (tools/pkg/fccutils/registration.go,
-- tools/pkg/fccutils/tee_calls.go).
use Prim.Native.String.{◌++◌ as append}
use sealed_auction_fce.Prelude.{
  ℕ, zero, suc, [], ◌∷◌, String, Result, ok, err, fail_if, sprintf, ◌==◌, not, if◌then◌else◌, pos,
  to_string,
}
use sealed_auction_fce.Extension.Types.{Hash, Bytes}
use sealed_auction_fce.Chain.{
  AvailabilityProof, HttpReply, Outside, Act, done, lift, on_error, perform, check_tx, send,
  to_production, get_tee_machine, http_get, sleep, ◌>>=◌, ◌>>◌,
}
use sealed_auction_fce.Registration.{Library, Support, try}

abbrev pub repeats : ℕ
repeats = 15

module _ (lib : Library) (out : Outside) where
  -- The loop of `ActionResult`: what the last GET returned, after at most the given number of GETs.
  unfoldable pub poll : ℕ → String → Result HttpReply → Act (Result HttpReply)
  poll zero url last = done last
  poll (suc n) url last =
      on_error (perform out (http_get url))
        (λ e. try lib out (perform out (sleep 2)) (poll n url (err e)))
        (λ reply.
          let again = try lib out (perform out (sleep 2)) (poll n url (ok reply)) in
          if reply.status_code == 200 then done (ok reply) else again)

  unfoldable pub reply_body : Result HttpReply → Result Bytes
  reply_body (err e) = err e
  reply_body (ok reply) =
      if reply.status_code == 200
      then ok reply.body
      else err
          (sprintf ("action result status not ok, got: " ∷ to_string (pos reply.status_code) ∷ []))

  -- `ActionResult`, up to the decoding of the body.
  unfoldable pub action_result : String → Hash → Act Bytes
  action_result node_url action_id = do
    last ←
        poll repeats (append node_url (append "/action/result/" (lib.hash_hex action_id)))
          (err "no request was made")
    lift (reply_body last)

  -- `GetFTDCAvailabilityCheckResult`; the decoding of the parts of the proof is one parameter.
  unfoldable pub get_ftdc_availability_check_result : String → Hash → Act AvailabilityProof
  get_ftdc_availability_check_result host_url instruction_id = do
    body ← action_result host_url instruction_id
    lift (lib.unmarshal_proof body)

  -- `ToProduction`.
  unfoldable pub to_production_step : Support → AvailabilityProof → Act (Unit {0})
  to_production_step s proof = do
    lift (lib.transactor s.prv s.chain_id)
    hash ← perform out (send s.prv 0 (to_production proof))
    receipt ← check_tx out hash
    tee ← perform out (get_tee_machine proof.tee_id)
    lift (fail_if (not (tee == proof.tee_id)) "tee machine not set up correctly")
