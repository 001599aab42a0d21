-- ===== src/Extension/Handlers/Close.antt =====
-- Every outcome of `processCloseAuction` (go/internal/extension/extension.go).
use mathlib.Core.List.{Memᴰ}
use sealed_auction_fce.Prelude.{
  ◌≡◌, ◌⊎◌, refl, inl, inr, Bool, true, none, some, List, String, ℤ, pos, ok, err, Result-cases,
  to_string,
}
use sealed_auction_fce.Extension.Types.{
  Address, Bytes, Codec, Action, ActionResult, AuctionResult, DataFixed, CloseMessage,
}
use sealed_auction_fce.Extension.Bids.{Bid, reserve_or_zero, pick_winner}
use sealed_auction_fce.Extension.Bids.Ranking.{wei, Qualifies}
use sealed_auction_fce.Extension.Bids.Selection.{IsBest, pick_winner_best}
use sealed_auction_fce.Extension.Store.{Extension, bids_at, is_closed, mark_closed}
use sealed_auction_fce.Extension.Store.Access.{
  bids_at-mark_closed, is_closed-mark_closed, is_closed-mark_closed_mono,
}
use sealed_auction_fce.Extension.Handlers.{
  build_result, pack_error, close_request, close_answer, process_close_auction,
}

-- The winner and the price that the rules of the auction give: the bidder and the amount of a best
-- qualified bid, or zero and zero where no bid qualifies.
abbrev pub IsSettlement : CloseMessage → List Bid → Address → ℤ → Type 0
IsSettlement req bids winner price =
    ((w : Bid) × IsBest req.contract_addr (reserve_or_zero req.reserve_price) bids w
      × (winner ≡ w.bidder)
      × (price ≡ pos (wei w)))
    ⊎ ((b : Bid)
        → Memᴰ b bids
        → ¬ Qualifies req.contract_addr (reserve_or_zero req.reserve_price) b)
      × (winner ≡ 0)
      × (price ≡ pos 0)

abbrev pub packed_result : CloseMessage → ℤ → Address → ℤ → AuctionResult
packed_result req id winner price = record {
  contract_addr = req.contract_addr;
  auction_id = id;
  winner = winner;
  clearing_price = price;
}

module _ (codec : Codec) where
  -- The result carries the packed settlement with status 1, or has status 0 where packing fails.
  abbrev pub Announces : CloseMessage → ℤ → Address → ℤ → ActionResult → Type 0
  Announces req id winner price r =
      ((bytes : Bytes) × (codec.pack_auction_result (packed_result req id winner price) ≡ ok bytes)
        × (r.payload ≡ some bytes)
        × (r.status ≡ 1))
      ⊎ ((t : String) × (codec.pack_auction_result (packed_result req id winner price) ≡ err t)
          × (r.payload ≡ none)
          × (r.status ≡ 0))

  pick_winner_settles :
      (req : CloseMessage) (bids : List Bid)
      → (winner : Address) × (price : ℤ) × (found : Bool) × (pick_winner bids req.contract_addr
            req.reserve_price
          ≡ some (winner, price, found))
        × IsSettlement req bids winner price
  pick_winner_settles req bids = elim (pick_winner_best bids req.contract_addr req.reserve_price) [
    | inl (w, best, e) ↦ (w.bidder, pos (wei w), true, e, inl (w, best, refl, refl))
    | inr (no_bid, e) ↦ (0, pos 0, _, e, inr (no_bid, refl, refl))
  ]

  module _ (action : Action) (df : DataFixed) where
    -- The answer announces what `pickWinner` returns for the stored bids.
    pub close_answer-Announces :
        (e : Extension) (req : CloseMessage) (id price : ℤ) (winner : Address) (found : Bool)
        → pick_winner (bids_at e (to_string id)) req.contract_addr req.reserve_price
          ≡ some (winner, price, found)
        → (r : ActionResult) × (close_answer codec e action df req id ≡ some r)
          × Announces req id winner price r
    unfolding close_answer build_result
    close_answer-Announces e req id price winner found picked =
        elim (Result-cases (codec.pack_auction_result (packed_result req id winner price))) [
          | inl (bytes, packed) ↦ (
            build_result action df (some bytes) 1 none,
            rw (picked, close_answer) (rw packed),
            inl (bytes, packed, refl, refl),
          )
          | inr (t, failed) ↦ (
            build_result action df none 0 (some (pack_error t)),
            rw (picked, close_answer) (rw failed),
            inr (t, failed, refl, refl),
          )
        ]

    pub close_answer_settles :
        (e : Extension) (req : CloseMessage) (id : ℤ)
        → (r : ActionResult) × (winner : Address) × (price : ℤ) × (close_answer codec e action df
              req id
            ≡ some r)
          × IsSettlement req (bids_at e (to_string id)) winner price
          × Announces req id winner price r
    close_answer_settles e req id =
        let (winner, price, found, picked, settled) =
          pick_winner_settles req (bids_at e (to_string id)) in
        let (r, answered, announced) = close_answer-Announces e req id price winner found picked in
        (r, winner, price, answered, settled, announced)

  module _ (e : Extension) (action : Action) (df : DataFixed) where
    pub process_close_auction_ok :
        (req : CloseMessage) (id : ℤ) (r : ActionResult)
        → close_request codec df ≡ ok (req, id)
        → close_answer codec (mark_closed e (to_string id)) action df req id ≡ some r
        → process_close_auction codec e action df ≡ some (mark_closed e (to_string id), r)
    unfolding process_close_auction
    process_close_auction_ok req id r asked answered =
        rw (asked, process_close_auction) (rw answered)

    bids_kept : (key : String) → (mark_closed e key).bids ≡ e.bids
    unfolding mark_closed
    bids_kept key = refl

    seq_kept : (key : String) → (mark_closed e key).seq ≡ e.seq
    unfolding mark_closed
    seq_kept key = refl

    -- A close whose message is refused leaves the state as it was, with status 0.
    abbrev pub CloseRefused : Type 0
    CloseRefused =
        (t : String) × (close_request codec df ≡ err t)
        × (process_close_auction codec e action df
            ≡ some (e, build_result action df none 0 (some t)))

    -- The auction is marked closed, no bid changes, and the answer announces the settlement of the
    -- bids that are stored.
    pub record Closed : Type 0 where
      pub req : CloseMessage
      pub auction_id : ℤ
      pub after : Extension
      pub result : ActionResult
      pub winner : Address
      pub price : ℤ
      pub asked : close_request codec df ≡ ok (req, auction_id)
      pub closes : process_close_auction codec e action df ≡ some (after, result)
      pub same_bids : after.bids ≡ e.bids
      pub same_seq : after.seq ≡ e.seq
      pub marked : is_closed after (to_string auction_id) ≡ true
      pub keeps_closed : (j : String) → is_closed e j ≡ true → is_closed after j ≡ true
      pub settled : IsSettlement req (bids_at e (to_string auction_id)) winner price
      pub announced : Announces req auction_id winner price result

    -- `processCloseAuction` never panics. It refuses a message that does not decode and changes
    -- nothing, or it closes the auction and announces its settlement.
    pub process_close_auction_outcome : CloseRefused ⊎ Closed
    unfolding process_close_auction
    process_close_auction_outcome = elim (Result-cases (close_request codec df)) [
      | inl ((req, id), asked) ↦
          let key = to_string id in
          let (r, winner, price, answered, settled, announced) =
            close_answer_settles action df (mark_closed e key) req id in
          inr (record {
            req = req;
            auction_id = id;
            after = mark_closed e key;
            result = r;
            winner = winner;
            price = price;
            asked = asked;
            closes = process_close_auction_ok req id r asked answered;
            same_bids = bids_kept key;
            same_seq = seq_kept key;
            marked = is_closed-mark_closed e key;
            keeps_closed = is_closed-mark_closed_mono e key;
            settled = rw (bids_at-mark_closed e key key) at settled;
            announced = announced;
          })
      | inr (t, refused) ↦ inl (t, refused, rw (refused, process_close_auction))
    ]
