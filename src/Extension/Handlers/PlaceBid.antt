-- ===== src/Extension/Handlers/PlaceBid.antt =====
-- What `processPlaceBid` (go/internal/extension/extension.go) accepts, and what it then changes.
use sealed_auction_fce.Prelude.{
  ℕ, suc, ◌≡◌, refl, inl, inr, true, false, Option, none, some, String, ℤ, pos, Result, ok,
  Result-cases, zero, negsuc, to_string, arith,
}
use sealed_auction_fce.Extension.Types.{Bytes, Codec, DataFixed, PlaceBidMessage, BidPayload}
use sealed_auction_fce.Extension.Store.{Extension, is_closed}
use sealed_auction_fce.Extension.Handlers.{
  is_nil, is_positive, place_bid_request, open_bid, check_bid,
}

positive_amount : (z : Option ℤ) → is_positive z ≡ true → (n : ℕ) × (z ≡ some (pos (suc n)))
positive_amount none h = absurd (cc)
positive_amount (some (pos zero)) h = absurd (cc)
positive_amount (some (pos (suc n))) h = (n, refl)
positive_amount (some (negsuc n)) h = absurd (cc)

module _ (codec : Codec) (decrypt : Bytes → Result Bytes) where
  -- The conditions under which a bid is accepted: the instruction decodes, its auction is open, and
  -- the decrypted payload names the on-chain sender, the same auction and a positive amount.
  pub record Accepts (e : Extension) (df : DataFixed) (w : PlaceBidMessage) (id : ℤ) (plain : Bytes)
      (p : BidPayload) : Type 0 where
    pub instruction : is_nil df.original_message ≡ false
    pub decoded : codec.decode_place_bid df.original_message ≡ ok w
    pub auction : w.auction_id ≡ some id
    pub ciphertext : is_nil w.ciphertext ≡ false
    pub still_open : is_closed e (to_string id) ≡ false
    pub decrypted : decrypt w.ciphertext ≡ ok plain
    pub payload : codec.decode_bid_payload plain ≡ ok p
    pub same_bidder : p.bidder ≡ w.bidder
    pub same_auction : p.auction_id ≡ some id
    pub positive : (n : ℕ) × (p.amount_wei ≡ some (pos (suc n)))

  pub place_bid_request_ok :
      (df : DataFixed) (w : PlaceBidMessage) (id : ℤ)
      → place_bid_request codec df ≡ ok (w, id)
      → (is_nil df.original_message ≡ false)
        × (codec.decode_place_bid df.original_message ≡ ok w)
        × (w.auction_id ≡ some id)
        × (is_nil w.ciphertext ≡ false)
  unfolding place_bid_request
  place_bid_request_ok df w id h = ground arith

  open_bid_decrypted :
      (w : PlaceBidMessage) (id : ℤ) (p : BidPayload)
      → open_bid codec decrypt w id ≡ ok p
      → (plain : Bytes) × (decrypt w.ciphertext ≡ ok plain)
  unfolding open_bid
  open_bid_decrypted w id p h = elim (Result-cases (decrypt w.ciphertext)) [
    | inl found ↦ found
    | inr (t, e) ↦ absurd (ground arith)
  ]

  open_bid_ok :
      (w : PlaceBidMessage) (id : ℤ) (p : BidPayload) (plain : Bytes)
      → open_bid codec decrypt w id ≡ ok p
      → decrypt w.ciphertext ≡ ok plain
      → (codec.decode_bid_payload plain ≡ ok p)
        × (p.bidder ≡ w.bidder)
        × (p.auction_id ≡ some id)
        × (is_positive p.amount_wei ≡ true)
  unfolding open_bid
  open_bid_ok w id p plain h d = ground arith

  pub check_bid_ok :
      (e : Extension) (df : DataFixed) (key : String) (p : BidPayload)
      → check_bid codec decrypt e df ≡ ok (key, p)
      → (w : PlaceBidMessage) × (id : ℤ) × (plain : Bytes) × (key ≡ to_string id)
        × Accepts e df w id plain p
  unfolding check_bid
  check_bid_ok e df key p h = elim (Result-cases (place_bid_request codec df)) [
    | inl ((w, id), asked) ↦
        let (filled, decoded, auction, ciphertext) = place_bid_request_ok df w id asked in
        let opened : (is_closed e (to_string id) ≡ false)
            × (open_bid codec decrypt w id ≡ ok p)
            × (key ≡ to_string id) =
          ground arith in
        let (plain, decrypted) = open_bid_decrypted w id p opened.1 in
        let (payload, same_bidder, same_auction, amount) =
          open_bid_ok w id p plain opened.1 decrypted in
        (
          w,
          id,
          plain,
          opened.2,
          record {
            instruction = filled;
            decoded = decoded;
            auction = auction;
            ciphertext = ciphertext;
            still_open = opened.0;
            decrypted = decrypted;
            payload = payload;
            same_bidder = same_bidder;
            same_auction = same_auction;
            positive = positive_amount p.amount_wei amount;
          },
        )
    | inr (t, refused) ↦ absurd (ground arith)
  ]

  pub check_bid-Accepts :
      (e : Extension) (df : DataFixed) {w : PlaceBidMessage} {id : ℤ} {plain : Bytes}
      {p : BidPayload}
      → Accepts e df w id plain p
      → check_bid codec decrypt e df ≡ ok (to_string id, p)
  unfolding check_bid place_bid_request open_bid
  check_bid-Accepts e df a = ground (arith)
