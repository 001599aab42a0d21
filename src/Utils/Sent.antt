-- ===== src/Utils/Sent.antt =====
-- The transaction of each operation (tools/pkg/utils/instructions.go, erc20.go, nft.go).
use sealed_auction_fce.Prelude.{ℕ, refl, inl, inr, String, Result-cases, is_empty, ◌==◌}
use sealed_auction_fce.Extension.Types.{Address, Hash}
use sealed_auction_fce.Revert.{decode_revert_reason}
use sealed_auction_fce.Chain.Market.{MarketTx}
use sealed_auction_fce.Chain.{Outside, World, Act, Receipt, wait_mined, submit, simulate_market}
use sealed_auction_fce.Chain.Journal.{
  Added, Only, Added-none, andthen-Only, on_error-Only, if-Only, wrap-Only, perform-Only,
}
use sealed_auction_fce.Registration.{Library, Support}
use sealed_auction_fce.Utils.{
  MarketLibrary, bind_sender, mined_ok, wait_ok, instruction_from_tx, submitted,
}
use sealed_auction_fce.Utils.Instructions.{
  set_extension_id_of, set_tee_address_of, create_auction_of, place_bid_of, close_auction_of,
  settle_of, send_native, set_id_refused, set_id_sent, simulated_set_id,
}
use sealed_auction_fce.Utils.Tokens.{
  bind_token, wait_status, approve_token, transfer_token, mint_demo_asset, approve_asset,
}
use sealed_auction_fce.Utils.Operations.{
  Operation, extension_id, tee_address, create, bid, close, settlement, native, allowance, payment,
  minting, permission, Meant, Proper, run_operation,
}

module _ (lib : Library) (m : MarketLibrary) (out : Outside) (s : Support) where
  module _ (o : Operation) where
    abbrev Fine : {A : Type 0} → Act A → Type 0
    Fine act = Only (Proper o s.prv) act

    nothing : (w : World) → Added (Proper o s.prv) w w
    nothing w = Added-none (Proper o s.prv) w

    bind_sender-Fine : (contract : Address) → Fine (bind_sender lib m out s contract)
    unfolding bind_sender
    bind_sender-Fine contract =
        andthen-Only _ _ _ (wrap-Only _ _ _ nothing) (λ u. wrap-Only _ _ _ nothing)

    bind_token-Fine : Fine (bind_token lib m out s)
    unfolding bind_token
    bind_token-Fine = andthen-Only _ _ _ (wrap-Only _ _ _ nothing) (λ u. wrap-Only _ _ _ nothing)

    mined_ok-Fine : (text failed : String) (tx : Hash) → Fine (mined_ok lib m out s text failed tx)
    unfolding mined_ok
    mined_ok-Fine text failed tx =
        andthen-Only _ _ _ (wrap-Only _ _ _ (perform-Only _ out (wait_mined tx) tt))
          (λ receipt. andthen-Only _ _ _ nothing (λ u. nothing))

    wait_ok-Fine : (tx : Hash) (label : String) → Fine (wait_ok lib m out s tx label)
    unfolding wait_ok
    wait_ok-Fine tx label = andthen-Only _ _ _ (mined_ok-Fine _ _ tx) (λ receipt. nothing)

    instruction_from_tx-Fine :
        (tx : Hash) (label : String) → Fine (instruction_from_tx lib m out s tx label)
    unfolding instruction_from_tx
    instruction_from_tx-Fine tx label =
        andthen-Only _ _ _ (mined_ok-Fine _ _ tx) (λ receipt. nothing)

    wait_status-Fine : (label : String) (tx : Hash) → Fine (wait_status lib m out s label tx)
    unfolding wait_status
    wait_status-Fine label tx =
        andthen-Only _ _ _ (wrap-Only _ _ _ (perform-Only _ out (wait_mined tx) tt))
          (λ receipt. nothing)

    submitted-Fine :
        (text : String) (v g : ℕ) (t : MarketTx)
        → Meant o v g t
        → Fine (submitted lib m out s text v g t)
    unfolding submitted
    submitted-Fine text v g t meant =
        wrap-Only _ _ _ (perform-Only _ out (submit s.prv v g t) (refl, meant))

    simulated_set_id-Fine : (contract : Address) → Fine (simulated_set_id lib m out s contract)
    unfolding simulated_set_id
    simulated_set_id-Fine contract =
        if-Only _ m.has_auction_abi _ _
          (λ w. elim (Result-cases m.pack_set_extension_id) [
            | inr (t, e) ↦ rw e (nothing w)
            | inl (calldata, e) ↦ rw e (
                on_error-Only _ _ _ _ (perform-Only _ out (simulate_market s.prv _) tt)
                  (λ t. nothing) (λ result. nothing) w)
          ])
          nothing

    set_id_refused-Fine :
        (contract : Address) (e : String) → Fine (set_id_refused lib m out s contract e)
    unfolding set_id_refused
    set_id_refused-Fine contract e =
        if-Only _ (is_empty (decode_revert_reason lib.reverts e)) _ _
          (andthen-Only _ _ _ (simulated_set_id-Fine contract) (λ simulated. nothing)) nothing

    set_id_sent-Fine : (contract : Address) (tx : Hash) → Fine (set_id_sent lib m out s contract tx)
    unfolding set_id_sent
    set_id_sent-Fine contract tx =
        andthen-Only _ _ _ (wrap-Only _ _ _ (perform-Only _ out (wait_mined tx) tt))
          (λ (receipt : Receipt).
            if-Only _ (receipt.status == 1) _ _ nothing
              (andthen-Only _ _ _ (simulated_set_id-Fine contract) (λ simulated. nothing)))

  -- Each operation sends no transaction but its own, signed by the support key, with its value (the
  -- instruction fee for a bid and a close), its gas limit and its arguments, whatever is answered.
  pub run_operation-Proper :
      (o : Operation) (w : World) → Added (Proper o s.prv) w (run_operation lib m out s o w).1
  unfolding run_operation set_extension_id_of set_tee_address_of create_auction_of place_bid_of
      close_auction_of settle_of send_native approve_token transfer_token mint_demo_asset
      approve_asset
  run_operation-Proper (extension_id contract) =
      let o = extension_id contract in
      andthen-Only _ _ _ (bind_sender-Fine o contract) (λ u.
        on_error-Only _ _ _ _ (perform-Only _ out (submit s.prv 0 0 _) (refl, (refl, refl, refl)))
          (λ e. set_id_refused-Fine o contract e) (λ tx. set_id_sent-Fine o contract tx))
  run_operation-Proper (tee_address contract tee) =
      let o = tee_address contract tee in
      andthen-Only _ _ _ (bind_sender-Fine o contract) (λ u.
        andthen-Only _ _ _ (submitted-Fine o _ _ _ _ (refl, refl, refl))
          (λ tx. wait_ok-Fine o tx _))
  run_operation-Proper (create contract l) =
      let o = create contract l in
      andthen-Only _ _ _ (bind_sender-Fine o contract) (λ u.
        andthen-Only _ _ _ (submitted-Fine o _ _ _ _ (refl, refl, refl))
          (λ tx. andthen-Only _ _ _ (mined_ok-Fine o _ _ tx) (λ receipt. nothing o)))
  run_operation-Proper (bid contract id ciphertext) =
      let o = bid contract id ciphertext in
      andthen-Only _ _ _ (bind_sender-Fine o contract) (λ u.
        andthen-Only _ _ _ (submitted-Fine o _ _ _ _ (refl, refl, refl))
          (λ tx. instruction_from_tx-Fine o tx _))
  run_operation-Proper (close contract id) =
      let o = close contract id in
      andthen-Only _ _ _ (bind_sender-Fine o contract) (λ u.
        andthen-Only _ _ _ (submitted-Fine o _ _ _ _ (refl, refl, refl))
          (λ tx. instruction_from_tx-Fine o tx _))
  run_operation-Proper (settlement contract t) =
      let o = settlement contract t in
      andthen-Only _ _ _ (bind_sender-Fine o contract) (λ u.
        andthen-Only _ _ _ (submitted-Fine o _ _ _ _ (refl, refl, refl))
          (λ tx. andthen-Only _ _ _ (wait_ok-Fine o tx _) (λ u1. nothing o)))
  run_operation-Proper (native to amount) =
      let o = native to amount in
      andthen-Only _ _ _ (wrap-Only _ _ _ (perform-Only _ out _ tt)) (λ nonce.
        andthen-Only _ _ _ (wrap-Only _ _ _ (perform-Only _ out _ tt)) (λ price.
          andthen-Only _ _ _ (wrap-Only _ _ _ (nothing o)) (λ u.
            andthen-Only _ _ _ (submitted-Fine o _ _ _ _ (refl, refl, nonce, price, refl))
              (λ tx. wait_ok-Fine o tx _))))
  run_operation-Proper (allowance token spender amount) =
      let o = allowance token spender amount in
      andthen-Only _ _ _ (bind_token-Fine o) (λ u.
        andthen-Only _ _ _ (submitted-Fine o _ _ _ _ (refl, refl, refl))
          (λ tx. wait_status-Fine o _ tx))
  run_operation-Proper (payment token to amount) =
      let o = payment token to amount in
      andthen-Only _ _ _ (bind_token-Fine o) (λ u.
        andthen-Only _ _ _ (submitted-Fine o _ _ _ _ (refl, refl, refl))
          (λ tx. wait_status-Fine o _ tx))
  run_operation-Proper (minting asset to) =
      let o = minting asset to in
      andthen-Only _ _ _ (wrap-Only _ _ _ (nothing o)) (λ topic.
        andthen-Only _ _ _ (wrap-Only _ _ _ (nothing o)) (λ u.
          andthen-Only _ _ _ (submitted-Fine o _ _ _ _ (refl, refl, refl))
            (λ tx. andthen-Only _ _ _ (mined_ok-Fine o _ _ tx) (λ receipt. nothing o))))
  run_operation-Proper (permission asset spender id) =
      let o = permission asset spender id in
      andthen-Only _ _ _ (wrap-Only _ _ _ (nothing o)) (λ topic.
        andthen-Only _ _ _ (wrap-Only _ _ _ (nothing o)) (λ u.
          andthen-Only _ _ _ (submitted-Fine o _ _ _ _ (refl, refl, refl))
            (λ tx. wait_ok-Fine o tx _)))
