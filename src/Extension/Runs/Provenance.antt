-- ===== src/Extension/Runs/Provenance.antt =====
-- Where the stored bids come from (go/internal/extension/extension.go).
use mathlib.Core.List.{Memᴰ}
use sealed_auction_fce.Prelude.{
  ℕ, ◌≡◌, ◌⊎◌, refl, ap, ◌∙◌, inl, inr, some, List, [], ◌∷◌, String, ℤ, pos, suc, ok, to_string,
  str_eq, str_eq_iff, Bool-cases, mem-append_last, map_get,
}
use sealed_auction_fce.Extension.Types.{Bytes, Codec, DataFixed, PlaceBidMessage, BidPayload}
use sealed_auction_fce.Extension.Bids.{Bid}
use sealed_auction_fce.Extension.Store.{Extension, new, bids_at, next_seq, bid_of}
use sealed_auction_fce.Extension.Handlers.PlaceBid.{Accepts}
use sealed_auction_fce.Extension.Runs.{Request, run}
use sealed_auction_fce.Extension.Runs.Steps.{Change, process_action-Answers}
use sealed_auction_fce.Extension.Store.Access.{bids_at_same}

module _ (codec : Codec) where
  -- The request carries an on-chain wrapper for this auction whose bidder is the bid's, and tee-node
  -- decrypted its ciphertext to a payload with the bid's contract and positive amount, for the same bidder
  -- and auction.
  pub record Authorises (key : String) (b : Bid) (q : Request) : Type 0 where
    pub df : DataFixed
    pub wrapper : PlaceBidMessage
    pub auction_id : ℤ
    pub plain : Bytes
    pub payload : BidPayload
    pub parsed : codec.parse_fixed q.action.message ≡ ok df
    pub decoded : codec.decode_place_bid df.original_message ≡ ok wrapper
    pub auction : wrapper.auction_id ≡ some auction_id
    pub its_key : key ≡ to_string auction_id
    pub decrypted : q.decrypt wrapper.ciphertext ≡ ok plain
    pub opened : codec.decode_bid_payload plain ≡ ok payload
    pub payload_auction : payload.auction_id ≡ some auction_id
    pub payload_bidder : payload.bidder ≡ wrapper.bidder
    pub bidder : b.bidder ≡ wrapper.bidder
    pub contract_addr : b.contract_addr ≡ payload.contract_addr
    pub amount : b.amount ≡ payload.amount_wei
    pub positive : (n : ℕ) × (b.amount ≡ some (pos (suc n)))
    pub timestamp : b.timestamp ≡ df.timestamp

  Accepts-Authorises :
      (q : Request) (e : Extension) (df : DataFixed) (w : PlaceBidMessage) (id : ℤ) (plain : Bytes)
      (p : BidPayload) (b : Bid) (n : ℕ)
      → codec.parse_fixed q.action.message ≡ ok df
      → Accepts codec q.decrypt e df w id plain p
      → b ≡ bid_of p df.timestamp n
      → Authorises (to_string id) b q
  Accepts-Authorises q e df w id plain p b n parsed a same = record {
    df = df;
    wrapper = w;
    auction_id = id;
    plain = plain;
    payload = p;
    parsed = parsed;
    decoded = a.decoded;
    auction = a.auction;
    its_key = refl;
    decrypted = a.decrypted;
    opened = a.payload;
    payload_auction = a.same_auction;
    payload_bidder = a.same_bidder;
    bidder = ap (λ (u : Bid). u.bidder) same ∙ a.same_bidder;
    contract_addr = ap (λ (u : Bid). u.contract_addr) same;
    amount = ap (λ (u : Bid). u.amount) same;
    positive = (a.positive.0, ap (λ (u : Bid). u.amount) same ∙ a.positive.1);
    timestamp = ap (λ (u : Bid). u.timestamp) same;
  }

  -- A bid that is there after a request was there before, or the request authorises it.
  Change-Authorises :
      (q : Request) {e e' : Extension} (key : String) (b : Bid)
      → Change codec q.decrypt e q.action e'
      → Memᴰ b (bids_at e' key)
      → Memᴰ b (bids_at e key) ⊎ Authorises key b q
  Change-Authorises q {e} {e'} key b (Change.unchanged same) m = inl (rw same at m)
  Change-Authorises q {e} {e'} key b (Change.placed df w id plain p parsed accepts appended) m =
      elim (Bool-cases (str_eq (to_string id) key)) [
        | inl same ↦
            let its_key = (str_eq_iff (to_string id) key).0 same in
            elim (mem-append_last (bids_at e (to_string id)) b
              (bid_of p df.timestamp (next_seq e.seq))
              (rw appended.here at (rw (← its_key) at m))) [
                | inl old ↦ inl (rw its_key at old)
                | inr last ↦ inr (
                    rw its_key at (
                      Accepts-Authorises q e df w id plain p b (next_seq e.seq) parsed accepts
                        last))
              ]
        | inr other ↦ inl (
            rw
              (appended.elsewhere key
                (λ (same : to_string id ≡ key). cc ((str_eq_iff (to_string id) key).1 same, other)))
              at m)
      ]
  Change-Authorises q {e} {e'} key b (Change.closed df req id parsed asked same seq marked mono) m =
      inl (rw (bids_at_same e e' key same) at m)

  run-Authorises :
      (qs : List Request) (e e' : Extension) (key : String) (b : Bid)
      → run codec e qs ≡ some e'
      → Memᴰ b (bids_at e' key)
      → Memᴰ b (bids_at e key) ⊎ ((q : Request) × Memᴰ q qs × Authorises key b q)
  unfolding run
  run-Authorises [] e e' key b h m = let same : e' ≡ e = cc in inl (rw same at m)
  run-Authorises (q ∷ qs) e e' key b h m =
      let (mid, response, answered, change) = process_action-Answers codec q.decrypt e q.action in
      elim (run-Authorises qs mid e' key b (rw (answered, run) at h) m) [
        | inl earlier ↦ elim (Change-Authorises q key b change earlier) [
          | inl start ↦ inl start
          | inr here ↦ inr (q, Memᴰ.head refl, here)
        ]
        | inr (q', later, authorises) ↦ inr (q', Memᴰ.tail later, authorises)
      ]

  bids_at-new : (key : String) → bids_at new key ≡ []
  unfolding new bids_at map_get
  bids_at-new key = refl

  -- Every bid that a fresh process holds after any requests was authorised by one of those requests: no bid
  -- is stored under a bidder or an auction other than those of an on-chain wrapper.
  pub bid_authorised :
      (qs : List Request) (e : Extension) (key : String) (b : Bid)
      → run codec new qs ≡ some e
      → Memᴰ b (bids_at e key)
      → (q : Request) × Memᴰ q qs × Authorises key b q
  bid_authorised qs e key b h m = elim (run-Authorises qs new e key b h m) [
    | inl start ↦ elim (rw (bids_at-new key) at start) [ ]
    | inr found ↦ found
  ]
