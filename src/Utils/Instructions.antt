-- ===== src/Utils/Instructions.antt =====
-- The operations on the auction contract (tools/pkg/utils/instructions.go).
use sealed_auction_fce.Prelude.{
  ℤ, ℕ, none, some, [], ◌∷◌, String, Result, ok, err, fail_if, sprintf, is_empty, ◌==◌, not,
  if◌then◌else◌,
}
use sealed_auction_fce.Extension.Types.{Address, Hash, Bytes}
use sealed_auction_fce.Revert.{decode_revert_reason, simulated_reason}
use sealed_auction_fce.Chain.Market.{
  MarketTx, set_extension_id, set_tee_address, create_auction, place_bid, close_auction, settle,
  native_transfer,
}
use sealed_auction_fce.Chain.{
  Outside, Act, Receipt, done, stop, lift, on_error, wrap, perform, submit, deploy_auction,
  simulate_market, pending_nonce, suggest_gas_price, wait_mined, ◌>>=◌, ◌>>◌,
}
use sealed_auction_fce.Registration.{Library, Support}
use sealed_auction_fce.Utils.{
  MarketLibrary, prefixed, first_parsed, bind_sender, mined_ok, wait_ok, instruction_from_tx,
  submitted,
}

abbrev pub instruction_fee_wei : ℕ
instruction_fee_wei = 1000000

abbrev pub lot_kind_erc721 : ℕ
lot_kind_erc721 = 0

-- The arguments of `CreateAuction` after the contract.
pub record Lot : Type 0 where
  pub lot : String
  pub lot_kind : ℕ  -- uint8
  pub lot_token : Address
  pub lot_token_id : ℕ
  pub lot_amount : ℕ
  pub pay_token : Address
  pub deadline : ℕ  -- uint64
  pub reserve_price : ℤ

abbrev pub create_tx : Address → Lot → MarketTx
create_tx contract l =
    create_auction contract l.lot l.lot_kind l.lot_token l.lot_token_id l.lot_amount l.pay_token
      l.deadline l.reserve_price

-- The arguments of `Settle` after the contract.
pub record Settlement : Type 0 where
  pub result_data : Bytes
  pub action_id : Hash
  pub submission_tag : String
  pub status : ℕ  -- uint8
  pub signature : Bytes

abbrev pub settle_tx : Address → Settlement → MarketTx
settle_tx contract t =
    settle contract t.result_data t.action_id t.submission_tag t.status t.signature

-- The id of the auction that the logs of a receipt announce.
unfoldable pub created_in : MarketLibrary → Receipt → Result ℕ
created_in m receipt = elim (first_parsed m.parse_auction_created receipt.logs) [
  | some id ↦ ok id
  | none ↦ err "AuctionCreated event not found in receipt"
]

module _ (lib : Library) (m : MarketLibrary) (out : Outside) (s : Support) where
  -- `DeployInstructionSender`: the address of the new contract. The manager is that of the
  -- addresses file.
  unfoldable pub deploy_instruction_sender : Address → Act Address
  deploy_instruction_sender flare_tee_manager = do
    wrap (prefixed "failed to create transactor: ") (lift (lib.transactor s.prv s.chain_id))
    deployed ←
        wrap (prefixed "failed to deploy contract: ")
          (perform out (deploy_auction s.prv flare_tee_manager flare_tee_manager))
    receipt ←
        wrap (prefixed "deployment tx not mined within 2 minutes: ")
          (perform out (wait_mined deployed.1))
    lift (fail_if (not (receipt.status == 1)) "contract deployment failed")
    done deployed.0

  -- The reason that a simulation of setExtensionId gives; empty when the call cannot be coded.
  unfoldable pub simulated_set_id : Address → Act String
  simulated_set_id contract =
      if m.has_auction_abi
      then elim m.pack_set_extension_id [
        | err e ↦ done ""
        | ok calldata ↦
            on_error (perform out (simulate_market s.prv (set_extension_id contract)))
              (λ e. done (simulated_reason lib.reverts (err e)))
              (λ result. done (simulated_reason lib.reverts (ok result)))
      ]
      else done ""

  unfoldable pub refused_text : String → String → String
  refused_text e reason =
      if is_empty reason
      then sprintf ("failed to call setExtensionId: " ∷ e ∷ [])
      else sprintf ("failed to call setExtensionId: " ∷ e ∷ " (revert reason: " ∷ reason ∷ ")" ∷ [])

  -- The error of a setExtensionId that is not sent.
  unfoldable pub set_id_refused : Address → String → Act (Unit {0})
  set_id_refused contract e =
      let reason = decode_revert_reason lib.reverts e in
      if is_empty reason
      then simulated_set_id contract >>= (λ simulated. stop (refused_text e simulated))
      else stop (refused_text e reason)

  unfoldable pub failed_text : String → String
  failed_text reason =
      if is_empty reason
      then "setExtensionId transaction failed"
      else sprintf ("setExtensionId transaction failed (revert reason: " ∷ reason ∷ ")" ∷ [])

  unfoldable pub set_id_sent : Address → Hash → Act (Unit {0})
  set_id_sent contract tx = do
    receipt ← wrap (prefixed "failed waiting for transaction: ") (perform out (wait_mined tx))
    (if receipt.status == 1
        then done tt
        else simulated_set_id contract >>= (λ simulated. stop (failed_text simulated)))

  -- `SetExtensionId`.
  unfoldable pub set_extension_id_of : Address → Act (Unit {0})
  set_extension_id_of contract = do
    bind_sender lib m out s contract
    on_error (perform out (submit s.prv 0 0 (set_extension_id contract)))
        (λ e. set_id_refused contract e) (λ tx. set_id_sent contract tx)

  -- `SetTeeAddress`.
  unfoldable pub set_tee_address_of : Address → Address → Act (Unit {0})
  set_tee_address_of contract tee = do
    bind_sender lib m out s contract
    tx ← submitted lib m out s "failed to call setTeeAddress: " 0 0 (set_tee_address contract tee)
    wait_ok lib m out s tx "setTeeAddress"

  -- `CreateAuction`.
  unfoldable pub create_auction_of : Address → Lot → Act ℕ
  create_auction_of contract l = do
    bind_sender lib m out s contract
    tx ← submitted lib m out s "failed to call createAuction: " 0 0 (create_tx contract l)
    receipt ←
        mined_ok lib m out s "failed waiting for transaction: " "createAuction transaction failed"
          tx
    lift (created_in m receipt)

  -- `PlaceBid`: the instruction id and the hash of the transaction.
  unfoldable pub place_bid_of : Address → ℕ → Bytes → Act (Hash × Hash)
  place_bid_of contract auction_id ciphertext = do
    bind_sender lib m out s contract
    tx ←
        submitted lib m out s "failed to call placeBid: " instruction_fee_wei 0
          (place_bid contract auction_id ciphertext)
    instruction_from_tx lib m out s tx "placeBid"

  -- `CloseAuction`.
  unfoldable pub close_auction_of : Address → ℕ → Act (Hash × Hash)
  close_auction_of contract auction_id = do
    bind_sender lib m out s contract
    tx ←
        submitted lib m out s "failed to call closeAuction: " instruction_fee_wei 0
          (close_auction contract auction_id)
    instruction_from_tx lib m out s tx "closeAuction"

  -- `Settle`: the hash of the transaction.
  unfoldable pub settle_of : Address → Settlement → Act Hash
  settle_of contract t = do
    bind_sender lib m out s contract
    tx ← submitted lib m out s "failed to call settle: " 0 0 (settle_tx contract t)
    wait_ok lib m out s tx "settle"
    done tx

  -- `SendNative`.
  unfoldable pub send_native : Address → ℕ → Act (Unit {0})
  send_native to amount = do
    nonce ←
        wrap (prefixed "failed to fetch nonce: ")
          (perform out (pending_nonce (lib.key_address s.prv)))
    gas_price ← wrap (prefixed "failed to fetch gas price: ") (perform out suggest_gas_price)
    wrap (prefixed "failed to sign transfer: ")
        (lift (m.sign_tx (native_transfer to nonce gas_price) amount 21000 s.chain_id s.prv))
    tx ←
        submitted lib m out s "failed to send transfer: " amount 21000
          (native_transfer to nonce gas_price)
    wait_ok lib m out s tx "native transfer"
