-- ===== src/Extension/Interleaving.antt =====
-- Handlers that run at the same time (go/internal/extension/extension.go). `processPlaceBid` reads
-- `closed` under the read lock, releases it, asks tee-node to decrypt, and stores the bid under the write
-- lock: other handlers run between the two. `processCloseAuction` reads and writes the state under one
-- lock.
use sealed_auction_fce.Prelude.{
  ◌≡◌, Bool, false, none, some, List, ◌∷◌, [], ◌++◌, String, ℤ, Result, ok, err, ◌>>=◌, ◌>>◌,
  fail_if, to_string, sprintf,
}
use sealed_auction_fce.Extension.Types.{
  Bytes, Codec, Action, ActionResult, DataFixed, PlaceBidMessage, BidPayload, CloseMessage,
  marshal_place_bid_response,
}
use sealed_auction_fce.Extension.Store.{Extension, is_closed, store_bid, mark_closed}
use sealed_auction_fce.Extension.Handlers.{build_result, place_bid_request, open_bid, close_request}
pub mod Quiescent
pub mod LateBid

-- `processPlaceBid` up to the release of the read lock.
unfoldable pub start_bid : Codec → Extension → DataFixed → Result (PlaceBidMessage × ℤ)
start_bid codec e df = do
  (wrapper, auction_id) ← place_bid_request codec df
  fail_if (is_closed e (to_string auction_id))
      (sprintf ("auction " ∷ to_string auction_id ∷ " already closed" ∷ []))
  ok (wrapper, auction_id)

-- `processPlaceBid` from the decryption on, over the state that it then meets.
unfoldable pub finish_bid :
    Codec
    → (Bytes → Result Bytes)
    → Extension
    → Action
    → DataFixed
    → PlaceBidMessage
    → ℤ
    → Extension × ActionResult
finish_bid codec decrypt e action df wrapper auction_id =
    elim (open_bid codec decrypt wrapper auction_id) [
      | err t ↦ (e, build_result action df none 0 (some t))
      | ok payload ↦ (
        store_bid e (to_string auction_id) payload df.timestamp,
        build_result action df (some (marshal_place_bid_response (record { accepted = Bool.true })))
            1 none,
      )
    ]

-- A handler of a PLACE_BID that is between its two locks.
pub record Pending : Type 0 where
  pub decrypt : Bytes → Result Bytes
  pub action : Action
  pub df : DataFixed
  pub wrapper : PlaceBidMessage
  pub auction_id : ℤ

pub record System : Type 0 where
  pub ext : Extension
  pub pending : List Pending

abbrev pub finished : Codec → Extension → Pending → Extension
finished codec e p = (finish_bid codec p.decrypt e p.action p.df p.wrapper p.auction_id).0

-- One critical section of one handler.
pub data Step (codec : Codec) : System → System → Type 0 where
  start :
      (s : System) (p : Pending)
      → start_bid codec s.ext p.df ≡ ok (p.wrapper, p.auction_id)
      → Step codec s (record s { pending = p ∷ s.pending })
  finish :
      (s : System) (before : List Pending) (p : Pending) (after : List Pending)
      → s.pending ≡ before ++ (p ∷ after)
      → Step codec s (record { ext = finished codec s.ext p; pending = before ++ after })
  close :
      (s : System) (df : DataFixed) (req : CloseMessage) (auction_id : ℤ)
      → close_request codec df ≡ ok (req, auction_id)
      → Step codec s (record s { ext = mark_closed s.ext (to_string auction_id) })

pub data Reach (codec : Codec) (s : System) : System → Type 0 where
  here : Reach codec s s
  next : {t u : System} → Reach codec s t → Step codec t u → Reach codec s u
