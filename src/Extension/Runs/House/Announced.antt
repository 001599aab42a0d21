-- ===== src/Extension/Runs/House/Announced.antt =====
-- What a close announces after any requests, in terms of the abstract auction house
-- (go/internal/extension/extension.go, winner.go).
use sealed_auction_fce.Prelude.{
  ok_injective, ◌<◌, ◌^◌, ◌≡◌, sym, ◌∙◌, ap, inl, inr, some, List, ℤ, ok, length, to_string,
}
use mathlib.Core.Path.{subst}
use sealed_auction_fce.Extension.Types.{
  Address, Codec, Action, ActionResult, DataFixed, CloseMessage,
}
use sealed_auction_fce.Extension.Bids.{Bid}
use sealed_auction_fce.Extension.Store.{Extension, new, bids_at}
use sealed_auction_fce.Extension.Handlers.{close_request, process_close_auction}
use sealed_auction_fce.Extension.Handlers.Close.{
  IsSettlement, Announces, process_close_auction_outcome,
}
use sealed_auction_fce.Extension.Runs.{Request, run}
use sealed_auction_fce.Extension.Runs.House.{House, empty_house, obey_all, meanings}
use sealed_auction_fce.Extension.Runs.House.Refines.{run_refines}

module _ (codec : Codec) where
  -- The house that the requests built from an empty one.
  abbrev pub built : List Request → House
  built qs = obey_all empty_house (meanings codec qs)

  -- The process answers the close with the settlement of the bids that the house has for the
  -- auction.
  abbrev pub AnnouncesHouse : List Request → Action → DataFixed → CloseMessage → ℤ → Type 0
  AnnouncesHouse qs action df req id =
      (e e' : Extension) × (r : ActionResult) × (winner : Address) × (price : ℤ) × (run codec new qs
        ≡ some e)
      × (process_close_auction codec e action df ≡ some (e', r))
      × IsSettlement req ((built qs).bids id) winner price
      × Announces codec req id winner price r

  -- After fewer than 2 ^ 64 requests to a fresh process, a well-formed close is answered with the
  -- best qualified bid among those that the requests placed on its auction, by the abstract rules, or
  -- with zero and zero when there is none.
  pub close_settles_house :
      (qs : List Request) (action : Action) (df : DataFixed) (req : CloseMessage) (id : ℤ)
      → length qs < 2 ^ 64
      → close_request codec df ≡ ok (req, id)
      → AnnouncesHouse qs action df req id
  close_settles_house qs action df req id room asked =
      let (e, ran, refined) = run_refines codec qs room in
      elim (process_close_auction_outcome codec e action df) [
        | inl (t, refused, result) ↦ absurd (cc (asked, refused))
        | inr c ↦
            let same = ok_injective (c.req, c.auction_id) (req, id) (sym c.asked ∙ asked) in
            (
              e,
              c.after,
              c.result,
              c.winner,
              c.price,
              ran,
              c.closes,
              subst (λ (bids : List Bid). IsSettlement req bids c.winner c.price)
                  (ap (λ (h : House). h.bids id) refined)
                  (subst
                    (λ (x : CloseMessage × ℤ).
                      IsSettlement x.0 (bids_at e (to_string x.1)) c.winner c.price)
                    same c.settled),
              subst (λ (x : CloseMessage × ℤ). Announces codec x.0 x.1 c.winner c.price c.result)
                  same c.announced,
            )
      ]
