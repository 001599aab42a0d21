-- ===== src/Extension/Handlers.antt =====
-- The action handlers (go/internal/extension/extension.go and utils.go). `none` is a panic.
pub mod PlaceBid
pub mod Effects
pub mod Secrecy
pub mod Close
use sealed_auction_fce.Prelude.{
  ℕ, Bool, true, false, not, ◌||◌, Option, none, some, List, [], ◌∷◌, String, ℤ, Result, ok, err,
  ◌>>=◌, ◌>>◌, fail_if, map_err, sprintf, to_string, eq_ℤ, is_nonpositive, ◌==◌, if◌then◌else◌,
}
use sealed_auction_fce.Extension.Types.{
  Bytes, Codec, Action, ActionResult, DataFixed, PlaceBidMessage, BidPayload, CloseMessage,
  marshal_place_bid_response, version, op_type_auction, op_command_place_bid,
  op_command_close_auction,
}
use sealed_auction_fce.Extension.Bids.{pick_winner}
use sealed_auction_fce.Extension.Store.{Extension, bids_at, is_closed, store_bid, mark_closed}

-- `%v` of an error.
abbrev error_text : Option String → String
error_text none = "<nil>"
error_text (some e) = e

abbrev log_of : ℕ → Option String → String
log_of status e =
    if status == 0
    then sprintf ("error: " ∷ error_text e ∷ [])
    else if status == 1
    then "ok"
    else "pending"

unfoldable pub build_result : Action → DataFixed → Option Bytes → ℕ → Option String → ActionResult
build_result a df payload status e = record {
  id = a.id;
  submission_tag = a.submission_tag;
  version = version;
  op_type = df.op_type;
  op_command = df.op_command;
  payload = payload;
  status = status;
  log = log_of status e;
}

abbrev pub is_nil {ℓ} : {A : Type ℓ} → List A → Bool
is_nil [] = true
is_nil (x ∷ xs) = false

-- `if p == nil { return error }`
abbrev non_nil : Option ℤ → String → Result ℤ
non_nil none e = err e
non_nil (some z) e = ok z

-- The checks of `processPlaceBid` on the instruction alone: the wrapper and its auction id.
unfoldable pub place_bid_request : Codec → DataFixed → Result (PlaceBidMessage × ℤ)
place_bid_request codec df = do
  fail_if (is_nil df.original_message) "originalMessage is empty"
  wrapper ←
      map_err (λ e. sprintf ("decoding place-bid message: " ∷ e ∷ []))
        (codec.decode_place_bid df.original_message)
  auction_id ← non_nil wrapper.auction_id "auctionId missing"
  fail_if (is_nil wrapper.ciphertext) "ciphertext must not be empty"
  ok (wrapper, auction_id)

abbrev pub same_auction : Option ℤ → ℤ → Bool
same_auction none auction_id = false
same_auction (some z) auction_id = eq_ℤ z auction_id

abbrev pub is_positive : Option ℤ → Bool
is_positive none = false
is_positive (some z) = not (is_nonpositive z)

-- The part of `processPlaceBid` between its two locks: decryption, and the cross-checks of the
-- payload against the wrapper.
unfoldable pub open_bid : Codec → (Bytes → Result Bytes) → PlaceBidMessage → ℤ → Result BidPayload
open_bid codec decrypt wrapper auction_id = do
  plaintext ← map_err (λ e. sprintf ("decryption failed: " ∷ e ∷ [])) (decrypt wrapper.ciphertext)
  payload ←
      map_err (λ e. sprintf ("decoding bid payload: " ∷ e ∷ []))
        (codec.decode_bid_payload plaintext)
  fail_if (not (payload.bidder == wrapper.bidder)) "payload bidder does not match on-chain sender"
  fail_if (not (same_auction payload.auction_id auction_id))
      "payload auctionId does not match instruction"
  fail_if (not (is_positive payload.amount_wei)) "bid amount must be positive"
  ok payload

-- All that `processPlaceBid` checks, in its order: the map key and the payload to store.
unfoldable pub check_bid :
    Codec → (Bytes → Result Bytes) → Extension → DataFixed → Result (String × BidPayload)
check_bid codec decrypt e df = do
  (wrapper, auction_id) ← place_bid_request codec df
  fail_if (is_closed e (to_string auction_id))
      (sprintf ("auction " ∷ to_string auction_id ∷ " already closed" ∷ []))
  payload ← open_bid codec decrypt wrapper auction_id
  ok (to_string auction_id, payload)

unfoldable pub process_place_bid :
    Codec → (Bytes → Result Bytes) → Extension → Action → DataFixed → Extension × ActionResult
process_place_bid codec decrypt e action df = elim (check_bid codec decrypt e df) [
  | err t ↦ (e, build_result action df none 0 (some t))
  | ok (key, payload) ↦ (
    store_bid e key payload df.timestamp,
    build_result action df (some (marshal_place_bid_response (record { accepted = true }))) 1 none,
  )
]

unfoldable pub close_request : Codec → DataFixed → Result (CloseMessage × ℤ)
close_request codec df = do
  fail_if (is_nil df.original_message) "originalMessage is empty"
  req ←
      map_err (λ e. sprintf ("decoding close message: " ∷ e ∷ []))
        (codec.decode_close df.original_message)
  auction_id ← non_nil req.auction_id "auctionId missing"
  ok (req, auction_id)

abbrev pub pack_error : String → String
pack_error t = sprintf ("ABI encode auction result: " ∷ t ∷ [])

-- The answer of `processCloseAuction` from its snapshot of the auction's bids.
unfoldable pub close_answer :
    Codec → Extension → Action → DataFixed → CloseMessage → ℤ → Option ActionResult
close_answer codec e action df req auction_id =
    elim (pick_winner (bids_at e (to_string auction_id)) req.contract_addr req.reserve_price) [
      | none ↦ none
      | some (winner, clearing_price, found) ↦
          elim (codec.pack_auction_result (record {
            contract_addr = req.contract_addr;
            auction_id = auction_id;
            winner = winner;
            clearing_price = clearing_price;
          })) [
            | err t ↦ some (build_result action df none 0 (some (pack_error t)))
            | ok encoded ↦ some (build_result action df (some encoded) 1 none)
          ]
    ]

unfoldable pub process_close_auction :
    Codec → Extension → Action → DataFixed → Option (Extension × ActionResult)
process_close_auction codec e action df = elim (close_request codec df) [
  | err t ↦ some (e, build_result action df none 0 (some t))
  | ok (req, auction_id) ↦
      let marked = mark_closed e (to_string auction_id) in
      elim (close_answer codec marked action df req auction_id) [
        | none ↦ none
        | some answer ↦ some (marked, answer)
      ]
]

-- A response body: a marshalled action result, or a plain message.
pub data Body : Type 0 where
  marshalled : ActionResult → Body
  message : String → Body

abbrev pub HttpResponse : Type 0
HttpResponse = record { status : ℕ; body : Body }

abbrev pub respond : ℕ → Body → HttpResponse
respond status body = record { status = status; body = body }

unfoldable pub process_auction :
    Codec
    → (Bytes → Result Bytes)
    → Extension
    → Action
    → DataFixed
    → Option (Extension × HttpResponse)
process_auction codec decrypt e action df =
    if df.op_command == codec.to_hash op_command_place_bid
    then (let (e', ar) = process_place_bid codec decrypt e action df in
        some (e', respond 200 (marshalled ar)))
    else if df.op_command == codec.to_hash op_command_close_auction
    then (elim (process_close_auction codec e action df) [
      | none ↦ none
      | some (e', ar) ↦ some (e', respond 200 (marshalled ar))
    ])
    else some (
      e,
      respond 501 (
          message (
            sprintf (
              "unsupported op command: received "
              ∷ codec.hex df.op_command
              ∷ ", expected one of ["
              ∷ codec.hex (codec.to_hash op_command_place_bid)
              ∷ " ("
              ∷ op_command_place_bid
              ∷ "), "
              ∷ codec.hex (codec.to_hash op_command_close_auction)
              ∷ " ("
              ∷ op_command_close_auction
              ∷ ")]"
              ∷ []))),
    )

unfoldable pub process_action :
    Codec → (Bytes → Result Bytes) → Extension → Action → Option (Extension × HttpResponse)
process_action codec decrypt e action = elim (codec.parse_fixed action.message) [
  | err t ↦ some (e, respond 400 (message (sprintf ("decoding fixed data: " ∷ t ∷ []))))
  | ok df ↦
      if df.op_type == codec.to_hash op_type_auction
      then process_auction codec decrypt e action df
      else some (
        e,
        respond 501 (
            message (
              sprintf (
                "unsupported op type: received "
                ∷ codec.hex df.op_type
                ∷ ", expected "
                ∷ codec.hex (codec.to_hash op_type_auction)
                ∷ " ("
                ∷ op_type_auction
                ∷ ")"
                ∷ []))),
      )
]

-- `actionHandler`, without its log lines.
unfoldable pub action_handler :
    Codec → (Bytes → Result Bytes) → Extension → Bytes → Option (Extension × HttpResponse)
action_handler codec decrypt e body = elim (codec.decode_action body) [
  | err t ↦ some (e, respond 400 (message (sprintf ("decoding action: " ∷ t ∷ "\n" ∷ []))))
  | ok action ↦ process_action codec decrypt e action
]
