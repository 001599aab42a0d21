-- ===== src/Extension/Store.antt =====
-- The state of an `Extension` (go/internal/extension/extension.go) and the accesses to it that the
-- handlers make under its lock; the state's report (`stateHandler`).
pub mod Access
use sealed_auction_fce.Prelude.{
  ℕ, ◌+◌, ◌%◌, ◌^◌, Bool, true, false, Option, none, some, List, [], ◌∷◌, ◌++◌, String, length,
  map_get, map_set,
}
use sealed_auction_fce.Extension.Types.{BidPayload, StateResponse, Codec, version}
use sealed_auction_fce.Extension.Bids.{Bid}

-- The maps are keyed by the decimal text of the auction id; a bid list is in arrival order.
pub record Extension : Type 0 where
  pub bids : List (String × List Bid)
  pub closed : List (String × Bool)
  pub seq : ℕ  -- uint64

unfoldable pub new : Extension
new = record { bids = []; closed = []; seq = 0 }

abbrev pub or_empty : Option (List Bid) → List Bid
or_empty none = []
or_empty (some bs) = bs

-- `e.bids[key]`
unfoldable pub bids_at : Extension → String → List Bid
bids_at e key = or_empty (map_get e.bids key)

abbrev pub or_false : Option Bool → Bool
or_false none = false
or_false (some b) = b

-- `e.closed[key]`
unfoldable pub is_closed : Extension → String → Bool
is_closed e key = or_false (map_get e.closed key)

abbrev pub next_seq : ℕ → ℕ
next_seq seq = (seq + 1) % 2 ^ 64

-- The bid that the handler builds from the payload.
abbrev pub bid_of : BidPayload → ℕ → ℕ → Bid
bid_of payload timestamp seq = record {
  bidder = payload.bidder;
  contract_addr = payload.contract_addr;
  amount = payload.amount_wei;
  timestamp = timestamp;
  seq = seq;
}

-- The section of `processPlaceBid` under the write lock.
unfoldable pub store_bid : Extension → String → BidPayload → ℕ → Extension
store_bid e key payload timestamp =
    let seq = next_seq e.seq in
    record e {
      bids = map_set e.bids key (bids_at e key ++ bid_of payload timestamp seq ∷ []);
      seq = seq;
    }

-- The write of `processCloseAuction` under the lock.
unfoldable pub mark_closed : Extension → String → Extension
mark_closed e key = record e { closed = map_set e.closed key true }

-- The loop of `stateHandler`.
unfoldable pub count_bids : List (String × List Bid) → ℕ
count_bids [] = 0
count_bids ((key, bs) ∷ m) = length bs + count_bids m

unfoldable pub state_handler : Codec → Extension → StateResponse
state_handler codec e = record {
  state_version = codec.to_hash version;
  state = record {
    auctions_tracked = length e.bids;
    auctions_closed = length e.closed;
    bids_stored = count_bids e.bids;
  };
}
