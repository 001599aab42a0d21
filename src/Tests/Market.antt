-- ===== src/Tests/Market.antt =====
-- A market for tools/pkg/utils and tools/cmd: a chain with an auction contract, an NFT and a pay token.
use sealed_auction_fce.Prelude.{
  pos, refl, ◌+◌, Bool, true, false, ◌||◌, List, [], ◌∷◌, Result, ok, length, if◌then◌else◌,
}
use sealed_auction_fce.Chain.Market.{MarketTx, View}
use sealed_auction_fce.Chain.{Call, Answer, Outside}
use sealed_auction_fce.Utils.{MarketLibrary}
use sealed_auction_fce.Commands.Machines.Reconciled.{Answering}
use sealed_auction_fce.Commands.RunTest.{ActionResponse, TestLibrary, Flags}
use sealed_auction_fce.Tests.Tools.{answer_of, mined, outside, reverts}

abbrev pub market : MarketLibrary
market = record {
  bind_auction = λ contract. ok tt;
  bind_erc20 = ok tt;
  bind_asset = ok 9;
  has_auction_abi = true;
  pack_set_extension_id = ok (1 ∷ []);
  parse_auction_created = λ log. ok 5;
  sign_tx = λ tx value gas chain key. ok tt;
  method_id = λ name types. 1 ∷ 2 ∷ 3 ∷ 4 ∷ [];
  pack_string = λ s. ok [];
  pack_address = λ a. ok [];
  unpack_address = λ bytes. ok 80;
  unpack_uint8 = λ bytes. ok 6;
  unpack_uint256 = λ bytes. ok 9000000;
}

-- Every machine is the deployer's.
abbrev pub answering : Answering outside
answering = record {
  owner = λ tee. 71;
  hash = 61;
  receipt = mined;
  owns = λ h tee. refl;
  sends = λ h key tee. refl;
  mines = λ h. refl;
  succeeds = refl;
}

-- The chain's time grows with every call.
abbrev ticking_answer : List Call → (c : Call) → Result (Answer c)
ticking_answer calls Call.head_time = ok (1000 + length calls)
ticking_answer calls c = answer_of c

abbrev pub ticking : Outside
ticking = record { answer = ticking_answer; torn = λ old content. old; reverts = reverts }

abbrev is_settle : Call → Bool
is_settle (Call.submit key value gas (MarketTx.settle a b c d e f)) = true
is_settle _ = false

abbrev has_settled : List Call → Bool
has_settled [] = false
has_settled (c ∷ cs) = is_settle c || has_settled cs

-- The lot is in escrow until it is settled, then the deployer's; the seller holds the price.
abbrev house_answer : List Call → (c : Call) → Result (Answer c)
house_answer calls Call.head_time = ok (1000 + length calls)
house_answer calls (Call.view contract (View.balance_of account)) = ok (3000000 ∷ [])
house_answer calls (Call.view contract (View.owner_of token_id)) =
    ok ((if has_settled calls then 71 else 100) ∷ [])
house_answer calls (Call.wait_mined tx) = ok (record {
  status = 1;
  tx_hash = 61;
  logs = record { topics = 9 ∷ 0 ∷ 72 ∷ 4 ∷ []; content = [] } ∷ [];
})
house_answer calls c = answer_of c

abbrev pub house_chain : Outside
house_chain = record { answer = house_answer; torn = λ old content. old; reverts = reverts }

abbrev pub response : ActionResponse
response = record {
  status = 1;
  log = "ok";
  content = 7 ∷ [];
  id = 23;
  submission_tag = "submit";
  signature = [];
}

abbrev pub test_library : TestLibrary
test_library = record {
  getenv = λ name. "0x50";
  equal_fold = λ a b. false;
  has_text = λ a b. false;
  hex_to_address = λ s. 80;
  parse_machine_key = λ key. ok (3 ∷ []);
  pack_payload = λ p. ok (4 ∷ []);
  encrypt = λ entropy key plain. ok (5 ∷ []);
  unmarshal_action = λ body. ok response;
  unmarshal_accepted = λ bytes. ok true;
  unpack_result = λ bytes. ok (100, 5, 71, 3000000);
  bind_support = ok tt;
}

abbrev pub flags : Flags
flags = record {
  proxy_url = "http://proxy";
  house = 100;
  bid_wei = pos 3000000;
  losing_bid_wei = pos 2000000;
  reserve_wei = pos 1000000;
  bidding_seconds = pos 3;
}
