-- ===== src/Extension/Handlers/Secrecy.antt =====
-- What the answers of the extension (go/internal/extension/extension.go) reveal about a sealed bid.

use sealed_auction_fce.Prelude.{
  ℕ, ◌≡◌, refl, sym, ◌∙◌, inl, inr, [], ◌∷◌, ◌++◌, String, ℤ, Result, ok, Result-cases, to_string,
  arith, length, map_set, List,
}
use sealed_auction_fce.Extension.Types.{
  Bytes, Codec, Action, DataFixed, PlaceBidMessage, BidPayload, version,
}
use sealed_auction_fce.Extension.Store.{
  Extension, bids_at, next_seq, bid_of, store_bid, count_bids, state_handler,
}
use sealed_auction_fce.Extension.Store.Access.{count_bids-store_bid}
use sealed_auction_fce.Extension.Handlers.{
  build_result, place_bid_request, check_bid, process_place_bid,
}

length-map_set {ℓ} :
    {V : Type ℓ} (k : String) (v w : V) (m : List (String × V))
    → length (map_set m k v) ≡ length (map_set m k w)
unfolding map_set
length-map_set k v w [] = refl
length-map_set k v w ((j, u) ∷ m) = ground (arith, length-map_set k v w m)

same_tracked :
    (e : Extension) (key : String) (p q : BidPayload) (t u : ℕ)
    → length (store_bid e key p t).bids ≡ length (store_bid e key q u).bids
unfolding store_bid
same_tracked e key p q t u =
    length-map_set key (bids_at e key ++ bid_of p t (next_seq e.seq) ∷ [])
      (bids_at e key ++ bid_of q u (next_seq e.seq) ∷ []) e.bids

same_count :
    (e : Extension) (key : String) (p q : BidPayload) (t u : ℕ)
    → count_bids (store_bid e key p t).bids ≡ count_bids (store_bid e key q u).bids
same_count e key p q t u = count_bids-store_bid e key p t ∙ sym (count_bids-store_bid e key q u)

module _ (codec : Codec) where
  accepted_check :
      (decrypt : Bytes → Result Bytes) (e : Extension) (action : Action) (df : DataFixed)
      → (process_place_bid codec decrypt e action df).1.status ≡ 1
      → (key : String) × (p : BidPayload) × (check_bid codec decrypt e df ≡ ok (key, p))
  unfolding process_place_bid build_result
  accepted_check decrypt e action df h = elim (Result-cases (check_bid codec decrypt e df)) [
    | inl ((key, p), passed) ↦ (key, p, passed)
    | inr (t, failed) ↦ absurd (ground arith)
  ]

  key_of_request :
      (decrypt : Bytes → Result Bytes) (e : Extension) (df : DataFixed) (w : PlaceBidMessage)
      (id : ℤ) (key : String) (p : BidPayload)
      → place_bid_request codec df ≡ ok (w, id)
      → check_bid codec decrypt e df ≡ ok (key, p)
      → key ≡ to_string id
  unfolding check_bid
  key_of_request decrypt e df w id key p asked h = ground arith

  state_handler-store_bid :
      (e : Extension) (key : String) (p q : BidPayload) (t u : ℕ)
      → state_handler codec (store_bid e key p t) ≡ state_handler codec (store_bid e key q u)
  unfolding state_handler store_bid
  state_handler-store_bid e key p q t u = λ i. record {
    state_version = codec.to_hash version;
    state = record {
      auctions_tracked = same_tracked e key p q t u i;
      auctions_closed = length e.closed;
      bids_stored = same_count e key p q t u i;
    };
  }

  module _ (decrypt decrypt' : Bytes → Result Bytes) (e : Extension) (action : Action)
      (df df' : DataFixed) (w w' : PlaceBidMessage) (id : ℤ) where
    -- Two accepted bids on one auction, which may differ in bidder, ciphertext, plaintext, amount
    -- and time, get the same answer, and GET /state reports the same after either.
    pub place_bid_reveals_nothing :
        place_bid_request codec df ≡ ok (w, id)
        → place_bid_request codec df' ≡ ok (w', id)
        → df.op_type ≡ df'.op_type
        → df.op_command ≡ df'.op_command
        → (process_place_bid codec decrypt e action df).1.status ≡ 1
        → (process_place_bid codec decrypt' e action df').1.status ≡ 1
        → let (after, result) = process_place_bid codec decrypt e action df in
          let (after', result') = process_place_bid codec decrypt' e action df' in
          (result ≡ result') × (state_handler codec after ≡ state_handler codec after')
    unfolding process_place_bid build_result
    place_bid_reveals_nothing asked asked' types commands accepted accepted' =
        let (key, p, passed) = accepted_check decrypt e action df accepted in
        let (key', p', passed') = accepted_check decrypt' e action df' accepted' in
        let same = key_of_request decrypt e df w id key p asked passed in
        let same' = key_of_request decrypt' e df' w' id key' p' asked' passed' in
        rw (passed, passed', process_place_bid)
          (
            ground arith,
            rw (same, same')
                (state_handler-store_bid e (to_string id) p p' df.timestamp df'.timestamp),
          )
