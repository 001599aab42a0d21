-- ===== src/Extension/Interleaving/LateBid.antt =====
-- A bid that passes the closed check before a CLOSE_AUCTION and is stored after it
-- (go/internal/extension/extension.go).
use mathlib.Core.List.{Memᴰ}
use mathlib.Core.Path.{ap₂}
use sealed_auction_fce.Prelude.{
  mem_last, mem-append_last, ℕ, ◌≤◌, ◌<◌, String, ◌≡◌, refl, sym, ap, ◌∙◌, Bool, true, inl, inr,
  Option, some, List, [], ◌∷◌, ◌++◌, ℤ, pos, ◌≤ℤ◌, ok, to_string, arith,
}
use sealed_auction_fce.Extension.Types.{
  Action, ActionResult, Address, Codec, BidPayload, DataFixed, CloseMessage,
}
use sealed_auction_fce.Extension.Bids.{Bid, reserve_or_zero, pick_winner}
use sealed_auction_fce.Extension.Bids.Ranking.{wei, Qualifies}
use sealed_auction_fce.Extension.Bids.Selection.{pick_winner_best}
use sealed_auction_fce.Extension.Store.{
  Extension, bids_at, is_closed, next_seq, bid_of, mark_closed,
}
use sealed_auction_fce.Extension.Store.Access.{
  bids_at-store_bid, is_closed-store_bid, bids_at-mark_closed, is_closed-mark_closed,
}
use sealed_auction_fce.Extension.Handlers.{open_bid, close_request, process_close_auction}
use sealed_auction_fce.Extension.Handlers.Close.{
  Announces, close_answer-Announces, process_close_auction_ok,
}
use sealed_auction_fce.Extension.Interleaving.{Pending, System, Step, Reach, finish_bid, finished}

module _ (c : Address) (r : Option ℤ) (bids : List Bid) (winner : Address) (price : ℕ)
    (found : Bool) where
  -- No qualified bid offers more than the price.
  wei-le-price :
      (w : Bid)
      → pick_winner bids c r ≡ some (winner, pos price, found)
      → Memᴰ w bids
      → Qualifies c (reserve_or_zero r) w
      → wei w ≤ price
  wei-le-price w picked m q = elim (pick_winner_best bids c r) [
    | inl (v, best, e) ↦
        let same : ◌≡◌ {A = Option (Address × ℤ × Bool)} (some (v.bidder, pos (wei v), true))
            (some (winner, pos price, found)) =
          sym e ∙ picked in
        let paid : wei v ≡ price = ground arith in omega (arith, best.top w m q)
    | inr (no_bid, e) ↦ absurd (no_bid w m q)
  ]

  -- A higher bid that is added wins.
  higher_bid_wins :
      (b : Bid)
      → pick_winner bids c r ≡ some (winner, pos price, found)
      → Qualifies c (reserve_or_zero r) b
      → price < wei b
      → pick_winner (bids ++ b ∷ []) c r ≡ some (b.bidder, pos (wei b), true)
  higher_bid_wins b picked q more = elim (pick_winner_best (bids ++ b ∷ []) c r) [
    | inl (w, best, e) ↦ elim (mem-append_last bids w b best.member) [
      | inl earlier ↦ absurd (
          omega
            (arith, wei-le-price w picked earlier best.qualified, best.top b (mem_last bids b) q))
      | inr new ↦ e ∙ ap (λ (u : Bid). some (u.bidder, pos (wei u), true)) new
    ]
    | inr (no_bid, e) ↦ absurd (no_bid b (mem_last bids b) q)
  ]

module _ (codec : Codec) (ext : Extension) (p : Pending) (rest : List Pending) where
  abbrev pub key_of : String
  key_of = to_string p.auction_id

  abbrev start_state : System
  start_state = record { ext = ext; pending = p ∷ rest }

  -- After the close, and after the bid is stored.
  abbrev pub closed_state : System
  closed_state = record { ext = mark_closed ext key_of; pending = p ∷ rest }

  abbrev pub late_state : System
  late_state = record { ext = finished codec (mark_closed ext key_of) p; pending = rest }

  Reach-closed :
      (df : DataFixed) (req : CloseMessage)
      → close_request codec df ≡ ok (req, p.auction_id)
      → Reach codec start_state closed_state
  Reach-closed df req asked =
      Reach.next Reach.here (Step.close start_state df req p.auction_id asked)

  Reach-late : Reach codec closed_state late_state
  Reach-late = Reach.next Reach.here (Step.finish closed_state [] p rest refl)

  same_seq : (mark_closed ext key_of).seq ≡ ext.seq
  unfolding mark_closed
  same_seq = refl

  late_bids :
      (payload : BidPayload)
      → open_bid codec p.decrypt p.wrapper p.auction_id ≡ ok payload
      → (is_closed late_state.ext key_of ≡ true)
        × (bids_at late_state.ext key_of
            ≡ bids_at ext key_of ++ bid_of payload p.df.timestamp (next_seq ext.seq) ∷ [])
  unfolding finish_bid
  late_bids payload opened =
      rw (opened, finished, finish_bid)
        (
          is_closed-store_bid (mark_closed ext key_of) key_of payload p.df.timestamp key_of
              ∙ is_closed-mark_closed ext key_of,
          bids_at-store_bid (mark_closed ext key_of) key_of payload p.df.timestamp
              ∙ ap₂ (λ bs n. bs ++ bid_of payload p.df.timestamp (next_seq n) ∷ [])
                  (bids_at-mark_closed ext key_of key_of) same_seq,
        )

  -- A close of the message with the stored bids of the state: it marks the auction closed, and its
  -- answer announces the winner and the price.
  abbrev pub Announced : DataFixed → CloseMessage → Extension → Extension → Address → ℕ → Type 0
  Announced df req before after winner price =
      (action : Action)
      → (answer : ActionResult) × (process_close_auction codec before action df
          ≡ some (after, answer))
        × Announces codec req p.auction_id winner (pos price) answer

  announces :
      (df : DataFixed) (req : CloseMessage) (before : Extension) (winner : Address) (price : ℕ)
      (found : Bool)
      → close_request codec df ≡ ok (req, p.auction_id)
      → pick_winner (bids_at before key_of) req.contract_addr req.reserve_price
        ≡ some (winner, pos price, found)
      → Announced df req before (mark_closed before key_of) winner price
  announces df req before winner price found asked picked action =
      let (answer, answered, announced) =
        close_answer-Announces codec action df (mark_closed before key_of) req p.auction_id
          (pos price) winner found (rw (bids_at-mark_closed before key_of key_of) picked) in
      (
        answer,
        process_close_auction_ok codec before action df req p.auction_id answer asked answered,
        announced,
      )

  -- A PLACE_BID that read `closed` before the close and stores its bid after it: `processCloseAuction`
  -- marks the auction closed and announces one winner and price, the bid is stored in the auction that
  -- is marked closed, and `processCloseAuction` of the same message then announces the late bidder at
  -- a higher price. (An answer announces its winner where the result can be packed.)
  pub late_bid_changes_winner :
      (df : DataFixed) (req : CloseMessage) (payload : BidPayload) (winner : Address) (price n : ℕ)
      (found : Bool)
      → close_request codec df ≡ ok (req, p.auction_id)
      → open_bid codec p.decrypt p.wrapper p.auction_id ≡ ok payload
      → payload.contract_addr ≡ req.contract_addr
      → payload.amount_wei ≡ some (pos n)
      → reserve_or_zero req.reserve_price ≤ℤ pos n
      → price < n
      → pick_winner (bids_at ext key_of) req.contract_addr req.reserve_price
        ≡ some (winner, pos price, found)
      → (t u : System) × (v : Extension) × Reach codec (record { ext = ext; pending = p ∷ rest }) t
        × Announced df req ext t.ext winner price
        × (is_closed t.ext key_of ≡ true)
        × Reach codec t u
        × (is_closed u.ext key_of ≡ true)
        × Announced df req u.ext v payload.bidder n
  late_bid_changes_winner df req payload winner price n found asked opened addr amount reached more
        picked =
      let b = bid_of payload p.df.timestamp (next_seq ext.seq) in
      let offers : wei b ≡ n = rw amount in
      let q : Qualifies req.contract_addr (reserve_or_zero req.reserve_price) b = ground arith in
      let (marked, bids) = late_bids payload opened in
      let wins =
        higher_bid_wins req.contract_addr req.reserve_price (bids_at ext key_of) winner price found
          b picked q (omega arith) in
      let late : pick_winner (bids_at late_state.ext key_of) req.contract_addr req.reserve_price
          ≡ some (payload.bidder, pos n, true) =
        rw bids (wins ∙ ap (λ (k : ℕ). some (payload.bidder, pos k, true)) offers) in
      (
        closed_state,
        late_state,
        mark_closed late_state.ext key_of,
        Reach-closed df req asked,
        announces df req ext winner price found asked picked,
        is_closed-mark_closed ext key_of,
        Reach-late,
        marked,
        announces df req late_state.ext payload.bidder n true asked late,
      )
