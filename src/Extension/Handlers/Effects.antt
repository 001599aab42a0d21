-- ===== src/Extension/Handlers/Effects.antt =====
-- Every outcome of `processPlaceBid` (go/internal/extension/extension.go).

use sealed_auction_fce.Prelude.{
  ℕ, ◌≡◌, ◌≢◌, ◌⊎◌, refl, inl, inr, none, [], ◌∷◌, ◌++◌, String, ℤ, Result, ok, err, Result-cases,
  to_string,
}
use sealed_auction_fce.Extension.Types.{
  Bytes, Codec, Action, ActionResult, DataFixed, PlaceBidMessage, BidPayload,
}
use sealed_auction_fce.Extension.Store.{Extension, bids_at, next_seq, bid_of, store_bid}
use sealed_auction_fce.Extension.Store.Access.{bids_at-store_bid, bids_at-store_bid_ne}
use sealed_auction_fce.Extension.Handlers.{build_result, check_bid, process_place_bid}
use sealed_auction_fce.Extension.Handlers.PlaceBid.{Accepts, check_bid_ok, check_bid-Accepts}

-- The state after one bid was appended to the list under the key, and nothing else was touched.
pub record Appended (e e' : Extension) (key : String) (p : BidPayload) (timestamp : ℕ)
    : Type 0 where
  pub here : bids_at e' key ≡ bids_at e key ++ bid_of p timestamp (next_seq e.seq) ∷ []
  pub elsewhere : (j : String) → key ≢ j → bids_at e' j ≡ bids_at e j
  pub same_closed : e'.closed ≡ e.closed
  pub counted : e'.seq ≡ next_seq e.seq

store_bid-Appended :
    (e : Extension) (key : String) (p : BidPayload) (t : ℕ)
    → Appended e (store_bid e key p t) key p t
unfolding store_bid
store_bid-Appended e key p t = record {
  here = bids_at-store_bid e key p t;
  elsewhere = bids_at-store_bid_ne e key p t;
  same_closed = refl;
  counted = refl;
}

module _ (codec : Codec) (decrypt : Bytes → Result Bytes) (e : Extension) (df : DataFixed) where
  -- No wrapper and payload meet the conditions, the state is as it was, and the result has status 0
  -- and no data.
  abbrev pub Refused : Extension → ActionResult → Type 0
  Refused e' r =
      ((w : PlaceBidMessage) (id : ℤ) (plain : Bytes) (p : BidPayload)
        → ¬ Accepts codec decrypt e df w id plain p)
      × (e' ≡ e)
      × (r.status ≡ 0)
      × (r.payload ≡ none)

  -- The conditions are met, the bid is appended under its auction, and the result has status 1.
  abbrev pub Stored : Extension → ActionResult → Type 0
  Stored e' r =
      (w : PlaceBidMessage) × (id : ℤ) × (plain : Bytes) × (p : BidPayload) × Accepts codec decrypt
        e df w id plain p
      × Appended e e' (to_string id) p df.timestamp
      × (r.status ≡ 1)

  module _ (action : Action) where
    process_place_bid_ok :
        (key : String) (p : BidPayload)
        → check_bid codec decrypt e df ≡ ok (key, p)
        → let (e', r) = process_place_bid codec decrypt e action df in
          (e' ≡ store_bid e key p df.timestamp) × (r.status ≡ 1)
    unfolding process_place_bid build_result
    process_place_bid_ok key p h = rw (h, process_place_bid) (refl, refl)

    process_place_bid_err :
        (t : String)
        → check_bid codec decrypt e df ≡ err t
        → let (e', r) = process_place_bid codec decrypt e action df in
          (e' ≡ e) × (r.status ≡ 0) × (r.payload ≡ none)
    unfolding process_place_bid build_result
    process_place_bid_err t h = rw (h, process_place_bid) (refl, refl, refl)

    -- `processPlaceBid` either refuses, when the conditions cannot be met, and changes nothing, or
    -- accepts, when they are met, and appends exactly the one bid.
    pub process_place_bid_outcome :
        let (e', r) = process_place_bid codec decrypt e action df in Refused e' r ⊎ Stored e' r
    process_place_bid_outcome = elim (Result-cases (check_bid codec decrypt e df)) [
      | inl ((key, p), passed) ↦
          let (w, id, plain, key_id, accepts) = check_bid_ok codec decrypt e df key p passed in
          let (stored, status) = process_place_bid_ok key p passed in
          inr (
            w,
            id,
            plain,
            p,
            accepts,
            rw (stored, key_id) (store_bid-Appended e (to_string id) p df.timestamp),
            status,
          )
      | inr (t, failed) ↦
          let (same, status, empty) = process_place_bid_err t failed in
          inl (λ w id plain p a. cc (check_bid-Accepts codec decrypt e df a), same, status, empty)
    ]
