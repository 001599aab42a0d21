-- ===== src/Commands/RunTest/Flow.antt =====
-- The bids, the close and the settlement of run-test (tools/cmd/run-test/main.go).
use sealed_auction_fce.Prelude.{
  ℤ, pos, eq_ℤ, ℕ, zero, suc, Bool, true, false, Option, none, some, [], ◌∷◌, String, Result, ok,
  err, fail_if, sprintf, ◌==◌, leb, not, if◌then◌else◌,
}
use sealed_auction_fce.Extension.Types.{Address, Hash, Bytes}
use sealed_auction_fce.Chain.{
  Outside, Act, done, lift, wrap, perform, head_time, sleep, read_random, ◌>>=◌, ◌>>◌,
}
use sealed_auction_fce.Registration.{Library, Support, try}
use sealed_auction_fce.Registration.Production.{action_result}
use sealed_auction_fce.Utils.{MarketLibrary, prefixed}
use sealed_auction_fce.Utils.Instructions.{Settlement, place_bid_of, close_auction_of, settle_of}
use sealed_auction_fce.Utils.Tokens.{approve_token, transfer_token, token_balance, nft_owner}
use sealed_auction_fce.Commands.RunTest.{
  ActionResponse, Payload, TestLibrary, Flags, Sale, tee_ecies_public_key, encrypt_for_tee,
  pay_token_of, demo_asset_of, deployer, check_balance, configure, fund_seller, create_sale,
}

-- The hashes that the summary names.
pub record Summary : Type 0 where
  pub auction : ℕ
  pub losing_tx : Hash
  pub winning_tx : Hash
  pub settle_tx : Hash

module _ (lib : Library) (m : MarketLibrary) (t : TestLibrary) (out : Outside) where
  unfoldable pub accepted_in : String → ActionResponse → Result (Unit {0})
  accepted_in label response =
      if not (response.status == 1)
      then err (sprintf (label ∷ " failed: " ∷ response.log ∷ []))
      else elim (t.unmarshal_accepted response.content) [
        | err e ↦ err (sprintf (label ∷ ": expected an accepted bid" ∷ []))
        | ok accepted ↦ fail_if (not accepted) (sprintf (label ∷ ": expected an accepted bid" ∷ []))
      ]

  -- `ActionResult`, with the decoding of the body.
  unfoldable pub response_of : String → Hash → Act ActionResponse
  response_of proxy_url id = do
    body ← action_result lib out proxy_url id
    lift (t.unmarshal_action body)

  unfoldable pub check_accepted : String → String → Hash → Act (Unit {0})
  check_accepted proxy_url label id = do
    response ← response_of proxy_url id
    lift (accepted_in label response)

  -- The loop that waits for the deadline, with at most the given number of queries; false when the
  -- deadline was not reached.
  unfoldable pub wait_deadline : ℕ → ℕ → Act Bool
  wait_deadline zero deadline = done false
  wait_deadline (suc n) deadline = do
    let again = try lib out (perform out (sleep 2)) (wait_deadline n deadline)
    head ← wrap (prefixed "fetch chain head: ") (perform out head_time)
    if leb deadline head then done true else again

  module _ (s : Support) (f : Flags) (sale : Sale) where
    -- `sealBid`.
    unfoldable pub seal_bid : Bytes → Address → ℤ → Act Bytes
    seal_bid tee_key bidder amount = do
      salt ← perform out read_random
      let payload : Payload = record {
        auction_id = sale.auction_id;
        contract_addr = f.house;
        bidder = bidder;
        amount_wei = amount;
        salt = salt;
      }
      plaintext ← lift (t.pack_payload payload)
      encrypt_for_tee lib m t out tee_key plaintext

    -- Test case 2: the hashes of the losing and of the winning bid's transaction.
    unfoldable pub place_bids : Act (Hash × Hash)
    place_bids = do
      tee_key ←
          wrap (prefixed "fetch TEE ECIES key: ") (tee_ecies_public_key lib m t out f.proxy_url)
      losing_text ← seal_bid tee_key (lib.key_address sale.seller.prv) f.losing_bid_wei
      losing ← place_bid_of lib m out sale.seller f.house sale.auction_id losing_text
      winning_text ← seal_bid tee_key (deployer lib m t out s f) f.bid_wei
      winning ← place_bid_of lib m out s f.house sale.auction_id winning_text
      try lib out (perform out (sleep 5)) (
          check_accepted f.proxy_url "PLACE_BID (losing)" losing.0
          >> check_accepted f.proxy_url "PLACE_BID (winning)" winning.0
          >> done (losing.1, winning.1))

    -- What the test expects of the result of the close.
    unfoldable pub expected_result : ActionResponse → Result (ActionResponse × Address × ℕ)
    expected_result response =
        if not (response.status == 1)
        then err (sprintf ("CLOSE_AUCTION failed: " ∷ response.log ∷ []))
        else elim (t.unpack_result response.content) [
          | err e ↦ err (prefixed "decode auction result: " e)
          | ok (a, b, winner, price) ↦
              if not (winner == deployer lib m t out s f)
              then err "expected another winner"
              else if not (eq_ℤ (pos price) f.bid_wei)
              then err "expected another clearing price"
              else ok (response, winner, price)
        ]

    -- Test case 3 after the deadline: the response, the winner and the clearing price.
    unfoldable pub close_sale : Act (ActionResponse × Address × ℕ)
    close_sale = do
      sent ← close_auction_of lib m out s f.house sale.auction_id
      try lib out (perform out (sleep 5))
          (response_of f.proxy_url sent.0 >>= (λ response. lift (expected_result response)))

    abbrev pub settlement_of : ActionResponse → Settlement
    settlement_of response = record {
      result_data = response.content;
      action_id = response.id;
      submission_tag = response.submission_tag;
      status = response.status;
      signature = response.signature;
    }

    -- Test case 4: the hash of the settlement's transaction.
    unfoldable pub settle_sale : ActionResponse → Address → ℕ → Act Hash
    settle_sale response winner price = do
      approve_token lib m out s sale.pay_token f.house price
      tx ← settle_of lib m out s f.house (settlement_of response)
      balance ← token_balance lib m out s sale.pay_token (lib.key_address sale.seller.prv)
      lift (fail_if (not (balance == price)) "expected seller to hold the clearing price")
      holder ← nft_owner lib m out s sale.demo_asset sale.lot_token_id
      lift (fail_if (not (holder == winner)) "expected the lot to be owned by the winner")
      wrap (prefixed "refund pay tokens from ephemeral seller: ")
          (transfer_token lib m out sale.seller sale.pay_token (deployer lib m t out s f) balance)
      done tx

    -- The close and the settlement, when the deadline was reached; none when it was not.
    unfoldable pub finish_sale : Hash → Hash → Bool → Act (Option Summary)
    finish_sale losing winning false = done none
    finish_sale losing winning true = do
      closed ← close_sale
      tx ← settle_sale closed.0 closed.1 closed.2
      done (
          some (record {
            auction = sale.auction_id;
            losing_tx = losing;
            winning_tx = winning;
            settle_tx = tx;
          }))

  -- run-test after `DefaultSupport`, with the given number of queries for the deadline.
  unfoldable pub run_test : Support → Flags → ℕ → Act (Option Summary)
  run_test s f queries = do
    pay_token ← pay_token_of lib m t out
    demo_asset ← lift (demo_asset_of lib m t out)
    check_balance lib m t out s f pay_token
    configure lib m t out s f
    seller ← fund_seller lib m t out s f
    sale ← create_sale lib m t out s f seller pay_token demo_asset
    txs ← place_bids s f sale
    over ← wait_deadline queries sale.deadline
    finish_sale s f sale txs.0 txs.1 over
