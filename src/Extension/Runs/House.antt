-- ===== src/Extension/Runs/House.antt =====
-- An abstract auction house: what a process of go/internal/extension/extension.go promises, without
-- its maps, its decimal keys and its machine counter.
pub mod Obeyed
pub mod Refines
pub mod Announced
use sealed_auction_fce.Prelude.{
  ℕ, ◌+◌, Bool, true, false, List, [], ◌∷◌, ◌++◌, ℤ, eq_ℤ, Result, ok, err, to_string, ◌==◌,
  if◌then◌else◌, map,
}
use sealed_auction_fce.Extension.Types.{
  Bytes, Codec, DataFixed, BidPayload, op_type_auction, op_command_place_bid,
  op_command_close_auction,
}
use sealed_auction_fce.Extension.Bids.{Bid}
use sealed_auction_fce.Extension.Store.{Extension, bids_at, is_closed, bid_of}
use sealed_auction_fce.Extension.Handlers.{place_bid_request, open_bid, close_request}
use sealed_auction_fce.Extension.Runs.{Request}

-- For each auction its bids in their order and whether it is closed; and how many bids were placed.
pub record House : Type 0 where
  pub bids : ℤ → List Bid
  pub closed : ℤ → Bool
  pub placed : ℕ

-- What a request asks of the house.
pub data Command : Type 0 where
  bid : (auction : ℤ) → BidPayload → (timestamp : ℕ) → Command
  close : (auction : ℤ) → Command
  nothing : Command

abbrev pub empty_house : House
empty_house = record { bids = λ id. []; closed = λ id. false; placed = 0 }

-- A bid on an open auction is the last one there and has the next number; a close closes the auction.
abbrev pub obey : House → Command → House
obey h (bid id p timestamp) = if h.closed id then h else record {
  bids = λ j. if eq_ℤ j id then h.bids j ++ bid_of p timestamp (h.placed + 1) ∷ [] else h.bids j;
  closed = h.closed;
  placed = h.placed + 1;
}
obey h (close id) = record {
  bids = h.bids;
  closed = λ j. if eq_ℤ j id then true else h.closed j;
  placed = h.placed;
}
obey h nothing = h

abbrev pub obey_all : House → List Command → House
obey_all h [] = h
obey_all h (c ∷ cs) = obey_all (obey h c) cs

module _ (codec : Codec) where
  unfoldable pub bid_meant : (Bytes → Result Bytes) → DataFixed → Command
  bid_meant decrypt df = elim (place_bid_request codec df) [
    | err t ↦ nothing
    | ok (wrapper, id) ↦ elim (open_bid codec decrypt wrapper id) [
      | err t ↦ nothing
      | ok payload ↦ bid id payload df.timestamp
    ]
  ]

  unfoldable pub close_meant : DataFixed → Command
  close_meant df = elim (close_request codec df) [ err t ↦ nothing | ok (req, id) ↦ close id ]

  -- The command of a request, which does not depend on the state: a well-formed bid with its decrypted
  -- payload, a well-formed close, or nothing.
  unfoldable pub meaning : Request → Command
  meaning q = elim (codec.parse_fixed q.action.message) [
    | err t ↦ nothing
    | ok df ↦
        if df.op_type == codec.to_hash op_type_auction
        then if df.op_command == codec.to_hash op_command_place_bid
          then bid_meant q.decrypt df
          else if df.op_command == codec.to_hash op_command_close_auction
          then close_meant df
          else nothing
        else nothing
  ]

  abbrev pub meanings : List Request → List Command
  meanings [] = []
  meanings (q ∷ qs) = meaning q ∷ meanings qs

-- The house that the state of a process stands for.
abbrev pub house_of : Extension → House
house_of e = record {
  bids = λ id. bids_at e (to_string id);
  closed = λ id. is_closed e (to_string id);
  placed = e.seq;
}
