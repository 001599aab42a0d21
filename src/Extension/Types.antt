-- ===== src/Extension/Types.antt =====
-- The message types of go/pkg/types/types.go, the constants of go/internal/config/config.go, and
-- the records of tee-node and go-flare-common with the fields that the extension reads or writes.
use Prim.Native.Char.{code}
use sealed_auction_fce.Prelude.{ℕ, Bool, Option, List, [], ◌∷◌, String, ℤ, Result, if◌then◌else◌}

-- common.Address and common.Hash, as the numbers that their bytes spell.
abbrev pub Address : Type 0
Address = ℕ

abbrev pub Hash : Type 0
Hash = ℕ

abbrev pub Bytes : Type 0
Bytes = List ℕ

abbrev pub version : String
version = "0.1.0"

abbrev pub op_type_auction : String
op_type_auction = "AUCTION"

abbrev pub op_command_place_bid : String
op_command_place_bid = "PLACE_BID"

abbrev pub op_command_close_auction : String
op_command_close_auction = "CLOSE_AUCTION"

-- A `*big.Int` that may be nil is an option.
pub record PlaceBidMessage : Type 0 where
  pub auction_id : Option ℤ
  pub bidder : Address
  pub ciphertext : Bytes

pub record BidPayload : Type 0 where
  pub auction_id : Option ℤ
  pub contract_addr : Address
  pub bidder : Address
  pub amount_wei : Option ℤ
  pub salt : Hash

pub record CloseMessage : Type 0 where
  pub auction_id : Option ℤ
  pub contract_addr : Address
  pub reserve_price : Option ℤ
  pub deadline : ℕ  -- uint64

pub record AuctionResult : Type 0 where
  pub contract_addr : Address
  pub auction_id : ℤ
  pub winner : Address
  pub clearing_price : ℤ

-- The observable state of GET /state.
pub record State : Type 0 where
  pub auctions_tracked : ℕ
  pub auctions_closed : ℕ
  pub bids_stored : ℕ

pub record StateResponse : Type 0 where
  pub state_version : Hash
  pub state : State

-- instruction.DataFixed
pub record DataFixed : Type 0 where
  pub op_type : Hash
  pub op_command : Hash
  pub timestamp : ℕ  -- uint64
  pub original_message : Bytes

-- teetypes.Action
pub record Action : Type 0 where
  pub id : Hash
  pub submission_tag : String
  pub message : Bytes

-- teetypes.ActionResult; `data` is a nil or present slice.
pub record ActionResult : Type 0 where
  pub id : Hash
  pub submission_tag : String
  pub version : String
  pub op_type : Hash
  pub op_command : Hash
  pub payload : Option Bytes
  pub status : ℕ  -- uint8
  pub log : String

-- The ASCII bytes of a text.
abbrev pub ascii : String → Bytes
ascii String.[] = []
ascii (String.◌∷◌ c s) = code c ∷ ascii s

pub record PlaceBidResponse : Type 0 where
  pub accepted : Bool

-- `json.Marshal` at this type.
abbrev pub marshal_place_bid_response : PlaceBidResponse → Bytes
marshal_place_bid_response r =
    if r.accepted then ascii "{\"accepted\":true}" else ascii "{\"accepted\":false}"

-- The third-party code that the extension calls: tee-node's hashing and instruction parser,
-- go-flare-common's ABI decoder at the three argument layouts, go-ethereum's ABI packer.
pub record Codec : Type 0 where
  pub to_hash : String → Hash
  pub hex : Hash → String
  pub decode_action : Bytes → Result Action
  pub parse_fixed : Bytes → Result DataFixed
  pub decode_place_bid : Bytes → Result PlaceBidMessage
  pub decode_bid_payload : Bytes → Result BidPayload
  pub decode_close : Bytes → Result CloseMessage
  pub pack_auction_result : AuctionResult → Result Bytes
