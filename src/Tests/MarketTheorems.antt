-- ===== src/Tests/MarketTheorems.antt =====
-- The theorems about tools/pkg/utils, tools/cmd and the abstract auction house, each applied to the
-- inputs of `Market` and `Auction`.
use sealed_auction_fce.Prelude.{
  ◌≡◌, ◌+◌, refl, some, [], ◌++◌, ◌∷◌, ok, length, length-append, arith,
}
use sealed_auction_fce.Chain.{World, andthen, on_error, wrap, perform, sleep, head_time}
use sealed_auction_fce.Chain.Market.{place_bid}
use sealed_auction_fce.Chain.Journal.{Added}
use sealed_auction_fce.Registration.{tee_info, tee_proxy_id}
use sealed_auction_fce.Utils.{
  wait_ok, first_parsed, bind_sender, mined_ok, instruction_in, instruction_from_tx, submitted,
}
use sealed_auction_fce.Utils.Asked.{bid, requested, Instructed, requested-Instructed}
use sealed_auction_fce.Utils.Operations.{Operation, Proper, run_operation}
use sealed_auction_fce.Utils.Sent.{run_operation-Proper}
use sealed_auction_fce.Utils.Instructions.{
  place_bid_of, set_extension_id_of, set_id_sent, set_tee_address_of, send_native,
  create_auction_of, created_in, close_auction_of, settle_of,
}
use sealed_auction_fce.Commands.Machines.{reconcile_tee}
use sealed_auction_fce.Commands.Machines.Spared.{Spares, reconcile_tee-Spares}
use sealed_auction_fce.Commands.Machines.Answered.{RunsTo}
use sealed_auction_fce.Commands.Machines.Reconciled.{reconcile_tee_converges}
use sealed_auction_fce.Commands.RunTest.{
  ActionResponse, Sale, pay_token_of, demo_asset_of, check_balance, configure, fund_seller,
  create_sale, tee_ecies_public_key, tee_signing_address, encrypt_for_tee,
}
use sealed_auction_fce.Commands.RunTest.Flow.{
  Summary, run_test, place_bids, wait_deadline, finish_sale, close_sale, settle_sale,
  expected_result, response_of, accepted_in, check_accepted, seal_bid,
}
use sealed_auction_fce.Commands.RunTest.Passed.{Escrowed, Fetched, Won, Swapped, run_test_passed}
use sealed_auction_fce.Commands.RunTest.Grows.{Later}
use sealed_auction_fce.Utils.Fxrp.{token_balance_of}
use sealed_auction_fce.Utils.Tokens.{
  mint_demo_asset, minted_in, minted_id, transferred_id, approve_asset, nft_owner, single_output,
  approve_token, bind_token, wait_status, token_balance, transfer_token,
}
use sealed_auction_fce.Registration.Production.{action_result, poll, reply_body}
use sealed_auction_fce.Commands.RunTest.Waiting.{Advancing, Over, wait_deadline_ends}
use sealed_auction_fce.Extension.Store.{Extension, new}
use sealed_auction_fce.Extension.Runs.{run}
use sealed_auction_fce.Extension.Runs.House.{house_of, obey_all, empty_house, meanings}
use sealed_auction_fce.Extension.Runs.House.Refines.{run_refines}
use sealed_auction_fce.Tests.Auction.{codec, alice, bob}
use sealed_auction_fce.Tests.Tools.{library, outside, resumed, support, info}
use sealed_auction_fce.Tests.Market.{market, answering, ticking, test_library, house_chain, flags}

bid_sent : (requested library market outside support 100 (bid 5 (1 ∷ [])) resumed).0 ≡ ok (23, 61)
unfolding requested place_bid_of bind_sender submitted instruction_from_tx mined_ok instruction_in
    first_parsed andthen wrap perform
bid_sent = refl

requested-Instructed_example :
    Instructed library market outside support
      (place_bid 100 5 (1 ∷ []))
      resumed
      23
      61
      (requested library market outside support 100 (bid 5 (1 ∷ [])) resumed).1
requested-Instructed_example =
    requested-Instructed library market outside support 100 (bid 5 (1 ∷ [])) resumed 23 61 bid_sent

run_operation-Proper_example :
    Added
      (Proper (Operation.payment 80 72 3000000) 71)
      resumed
      (run_operation library market outside support (Operation.payment 80 72 3000000) resumed).1
run_operation-Proper_example =
    run_operation-Proper library market outside support (Operation.payment 80 72 3000000) resumed

reconcile_tee-Spares_example :
    Added
      (Spares library outside support "http://proxy" resumed)
      resumed
      (reconcile_tee library outside support "http://proxy" resumed).1
reconcile_tee-Spares_example = reconcile_tee-Spares library outside support "http://proxy" resumed

proxy_known : tee_proxy_id library info ≡ ok (31, 31)
unfolding tee_proxy_id
proxy_known = refl

-- Of the machines 30, 31 and 32 the live one is 31.
reconcile_tee_converges_example :
    RunsTo outside (reconcile_tee library outside support "http://proxy") resumed 2 (30 ∷ 32 ∷ [])
reconcile_tee_converges_example =
    reconcile_tee_converges library outside support answering "http://proxy"
      (record { status_code = 200; body = [] }) info 31 31 (30 ∷ 31 ∷ 32 ∷ []) resumed refl refl
      refl proxy_known (λ h. refl) (λ h. refl)

abbrev advancing : Advancing ticking
advancing = record {
  time = λ h. 1000 + length h;
  known = λ h. refl;
  grows = λ h.
      omega (
        arith,
        length-append h (head_time ∷ []),
        length-append (h ++ head_time ∷ []) (sleep 2 ∷ []),
      );
}

wait_deadline_ends_example :
    Over library market test_library ticking advancing 1003
      (wait_deadline library market test_library ticking 4 1003 resumed)
wait_deadline_ends_example =
    wait_deadline_ends library market test_library ticking advancing 3 1003 resumed (omega arith)

run_refines_example :
    (e : Extension) × (run codec new (alice ∷ bob ∷ []) ≡ some e)
    × (house_of e ≡ obey_all empty_house (meanings codec (alice ∷ bob ∷ [])))
run_refines_example = run_refines codec (alice ∷ bob ∷ []) (omega arith)

abbrev passed_summary : Summary
passed_summary = record { auction = 5; losing_tx = 61; winning_tx = 61; settle_tx = 61 }

-- The whole run of run-test on the chain of the market.
passed :
    (run_test library market test_library house_chain support flags 9 resumed).0
    ≡ ok (some passed_summary)
unfolding run_test pay_token_of demo_asset_of check_balance configure fund_seller create_sale
    place_bids wait_deadline finish_sale close_sale settle_sale expected_result response_of
    accepted_in check_accepted seal_bid tee_ecies_public_key tee_signing_address encrypt_for_tee
    token_balance_of set_extension_id_of set_id_sent set_tee_address_of wait_ok send_native
    mint_demo_asset minted_in minted_id transferred_id approve_asset create_auction_of created_in
    nft_owner single_output place_bid_of close_auction_of settle_of approve_token bind_token
    wait_status token_balance transfer_token action_result poll reply_body tee_info bind_sender
    submitted instruction_from_tx mined_ok instruction_in first_parsed andthen wrap perform on_error
passed = refl

run_test_passed_example :
    (sale : Sale) × (response : ActionResponse) × (created closing fetched : World) × Escrowed
      library market test_library house_chain support flags sale created
    × Later created closing
    × Fetched library market test_library house_chain support flags sale closing response fetched
    × Won library market test_library house_chain support flags sale response
    × Swapped library market test_library house_chain support flags sale fetched response
        (run_test library market test_library house_chain support flags 9 resumed).1
run_test_passed_example =
    run_test_passed library market test_library house_chain support flags 9 passed_summary resumed
      passed
