-- ===== src/Tests/Auction.antt =====
-- An auction on small inputs (go/internal/extension/extension_test.go runs the like).

use sealed_auction_fce.Prelude.{
  ℕ, ◌≡◌, refl, true, some, [], ◌∷◌, String, ℤ, pos, Result, ok, err, sprintf, to_string, map_get,
  map_set, str_eq, if◌then◌else◌,
}
use sealed_auction_fce.Extension.Types.{
  Bytes, Hash, Codec, Action, ActionResult, DataFixed, PlaceBidMessage, BidPayload, CloseMessage,
}
use sealed_auction_fce.Extension.Bids.{
  Bid, better, qualifies, challenge, pick_step, pick_loop, winner_of, pick_winner,
}
use sealed_auction_fce.Extension.Store.{
  Extension, new, bids_at, is_closed, store_bid, mark_closed, count_bids, state_handler,
}
use sealed_auction_fce.Extension.Handlers.{
  build_result, place_bid_request, open_bid, check_bid, process_place_bid, close_request,
  close_answer, process_close_auction, process_auction, process_action, action_handler,
}
use sealed_auction_fce.Extension.Runs.{Request, run}

unfoldable pub extension_code : Unit {0}
unfolding better qualifies challenge pick_step pick_loop winner_of pick_winner new bids_at is_closed
    store_bid mark_closed count_bids state_handler build_result place_bid_request open_bid check_bid
    process_place_bid close_request close_answer process_close_auction process_auction
    process_action action_handler run sprintf to_string map_get map_set
extension_code = tt

abbrev pub hash_of : String → Hash
hash_of s =
    if str_eq s "AUCTION"
    then 1
    else if str_eq s "PLACE_BID"
    then 2
    else if str_eq s "CLOSE_AUCTION"
    then 3
    else 0

abbrev pub fixed_of : Bytes → Result DataFixed
fixed_of (t ∷ c ∷ time ∷ message) =
    ok (record { op_type = t; op_command = c; timestamp = time; original_message = message })
fixed_of _ = err "short"

abbrev pub place_bid_of : Bytes → Result PlaceBidMessage
place_bid_of (id ∷ bidder ∷ ct) =
    ok (record { auction_id = some (pos id); bidder = bidder; ciphertext = ct })
place_bid_of _ = err "short"

abbrev pub payload_of : Bytes → Result BidPayload
payload_of (id ∷ addr ∷ bidder ∷ amount ∷ []) = ok (record {
  auction_id = some (pos id);
  contract_addr = addr;
  bidder = bidder;
  amount_wei = some (pos amount);
  salt = 0;
})
payload_of _ = err "short"

abbrev pub close_of : Bytes → Result CloseMessage
close_of (id ∷ addr ∷ reserve ∷ deadline ∷ []) = ok (record {
  auction_id = some (pos id);
  contract_addr = addr;
  reserve_price = some (pos reserve);
  deadline = deadline;
})
close_of _ = err "short"

abbrev pub magnitude : ℤ → ℕ
magnitude (pos n) = n
magnitude (ℤ.negsuc n) = n

abbrev pub codec : Codec
codec = record {
  to_hash = hash_of;
  hex = λ h. "0x";
  decode_action = λ bytes. ok (record { id = 7; submission_tag = "submit"; message = bytes });
  parse_fixed = fixed_of;
  decode_place_bid = place_bid_of;
  decode_bid_payload = payload_of;
  decode_close = close_of;
  pack_auction_result = λ r.
      ok (r.contract_addr ∷ magnitude r.auction_id ∷ r.winner ∷ magnitude r.clearing_price ∷ []);
}

-- The test's tee-node returns the ciphertext.
abbrev pub decrypt : Bytes → Result Bytes
decrypt bytes = ok bytes

abbrev pub action_of : Bytes → Action
action_of bytes = record { id = 7; submission_tag = "submit"; message = bytes }

-- Bidder 11 offers 50, bidder 12 offers 70, both on auction 5 of contract 170.
abbrev pub alice_message : Bytes
alice_message = 5 ∷ 11 ∷ 5 ∷ 170 ∷ 11 ∷ 50 ∷ []

abbrev pub bob_message : Bytes
bob_message = 5 ∷ 12 ∷ 5 ∷ 170 ∷ 12 ∷ 70 ∷ []

abbrev pub df_of : ℕ → ℕ → Bytes → DataFixed
df_of command time message = record {
  op_type = 1;
  op_command = command;
  timestamp = time;
  original_message = message;
}

abbrev pub request_of : ℕ → ℕ → Bytes → Request
request_of command time message = record {
  decrypt = decrypt;
  action = action_of (1 ∷ command ∷ time ∷ message);
}

abbrev pub alice : Request
alice = request_of 2 100 alice_message

abbrev pub bob : Request
bob = request_of 2 101 bob_message

abbrev pub close_message : Bytes
close_message = 5 ∷ 170 ∷ 60 ∷ 1000 ∷ []

abbrev pub alice_bid : Bid
alice_bid = record {
  bidder = 11;
  contract_addr = 170;
  amount = some (pos 50);
  timestamp = 100;
  seq = 1;
}

abbrev pub bob_bid : Bid
bob_bid = record {
  bidder = 12;
  contract_addr = 170;
  amount = some (pos 70);
  timestamp = 101;
  seq = 2;
}

abbrev pub two_bids : Extension
two_bids = record { bids = ("5", alice_bid ∷ bob_bid ∷ []) ∷ []; closed = []; seq = 2 }

pub two_bids-run : run codec new (alice ∷ bob ∷ []) ≡ some two_bids
unfolding extension_code
two_bids-run = refl

abbrev pub closed_two_bids : Extension
closed_two_bids = record {
  bids = ("5", alice_bid ∷ bob_bid ∷ []) ∷ [];
  closed = ("5", true) ∷ [];
  seq = 2;
}

abbrev pub close_result : ActionResult
close_result = record {
  id = 7;
  submission_tag = "submit";
  version = "0.1.0";
  op_type = 1;
  op_command = 3;
  payload = some (170 ∷ 5 ∷ 12 ∷ 70 ∷ []);
  status = 1;
  log = "ok";
}

pub close_run :
    process_close_auction codec two_bids (action_of []) (df_of 3 102 close_message)
    ≡ some (closed_two_bids, close_result)
unfolding extension_code
close_run = refl

-- A bid after the close is refused.
late_run :
    (process_place_bid codec decrypt closed_two_bids
      (action_of [])
      (df_of 2 103 alice_message)).1.log
    ≡ "error: auction 5 already closed"
unfolding extension_code
late_run = refl
