-- ===== src/Extension/Interleaving/Quiescent.antt =====
-- An auction that was closed with no bid of it in flight is frozen under every interleaving
-- (go/internal/extension/extension.go).
use sealed_auction_fce.Prelude.{
  ◌≡◌, ◌≢◌, refl, ◌∙◌, true, false, inl, inr, List, [], ◌∷◌, ◌++◌, String, ok, Result-cases,
  to_string, All, arith,
}
use sealed_auction_fce.Extension.Types.{Codec}
use sealed_auction_fce.Extension.Bids.{Bid}
use sealed_auction_fce.Extension.Store.{Extension, bids_at, is_closed}
use sealed_auction_fce.Extension.Store.Access.{
  bids_at-store_bid_ne, is_closed-store_bid, bids_at-mark_closed, is_closed-mark_closed_mono,
}
use sealed_auction_fce.Extension.Handlers.{open_bid, place_bid_request}
use sealed_auction_fce.Extension.Interleaving.{
  Pending, System, Step, Reach, start_bid, finish_bid, finished,
}

abbrev pub Elsewhere : String → Pending → Type 0
Elsewhere key p = to_string p.auction_id ≢ key

-- The auction is closed, holds these bids, and no handler is about to add one.
pub record Quiescent (key : String) (bids : List Bid) (s : System) : Type 0 where
  pub marked : is_closed s.ext key ≡ true
  pub holds : bids_at s.ext key ≡ bids
  pub none_pending : All (Elsewhere key) s.pending

All-remove :
    (key : String) (before : List Pending) (p : Pending) (after : List Pending)
    → All (Elsewhere key) (before ++ (p ∷ after))
    → All (Elsewhere key) (before ++ after) × Elsewhere key p
All-remove key [] p after h = (h.1, h.0)
All-remove key (q ∷ before) p after h =
    let (rest, this) = All-remove key before p after h.1 in ((h.0, rest), this)

module _ (codec : Codec) (key : String) where
  start_bid_open :
      (e : Extension) (p : Pending)
      → start_bid codec e p.df ≡ ok (p.wrapper, p.auction_id)
      → is_closed e (to_string p.auction_id) ≡ false
  unfolding start_bid
  start_bid_open e p h = elim (Result-cases (place_bid_request codec p.df)) [
    | inl ((w, id), asked) ↦ ground arith
    | inr (t, failed) ↦ absurd (ground arith)
  ]

  finished-Elsewhere :
      (e : Extension) (p : Pending)
      → Elsewhere key p
      → (bids_at (finished codec e p) key ≡ bids_at e key)
        × (is_closed (finished codec e p) key ≡ is_closed e key)
  unfolding finish_bid
  finished-Elsewhere e p h = elim (Result-cases (open_bid codec p.decrypt p.wrapper p.auction_id)) [
    | inl (payload, opened) ↦
        rw (opened, finished, finish_bid)
          (
            bids_at-store_bid_ne e (to_string p.auction_id) payload p.df.timestamp key h,
            is_closed-store_bid e (to_string p.auction_id) payload p.df.timestamp key,
          )
    | inr (t, refused) ↦ rw (refused, finished, finish_bid) (refl, refl)
  ]

  Step-Quiescent :
      {s t : System} (bids : List Bid)
      → Step codec s t
      → Quiescent key bids s
      → Quiescent key bids t
  Step-Quiescent bids (Step.start s p started) q = record {
    marked = q.marked;
    holds = q.holds;
    none_pending = (
      λ (same : to_string p.auction_id ≡ key). cc (q.marked, start_bid_open s.ext p started),
      q.none_pending,
    );
  }
  Step-Quiescent bids (Step.finish s before p after split) q =
      let (others, this) = All-remove key before p after (rw split at q.none_pending) in
      let (same_bids, same_closed) = finished-Elsewhere s.ext p this in
      record { marked = same_closed ∙ q.marked; holds = same_bids ∙ q.holds; none_pending = others }
  Step-Quiescent bids (Step.close s df req id asked) q = record {
    marked = is_closed-mark_closed_mono s.ext (to_string id) key q.marked;
    holds = bids_at-mark_closed s.ext (to_string id) key ∙ q.holds;
    none_pending = q.none_pending;
  }

  -- When an auction is closed while no PLACE_BID of it is between its two locks, then whatever handlers
  -- run afterwards, in any interleaving, its bids stay the same.
  pub Reach-Quiescent :
      {s t : System} (bids : List Bid)
      → Quiescent key bids s
      → Reach codec s t
      → Quiescent key bids t
  Reach-Quiescent bids q Reach.here = q
  Reach-Quiescent bids q (Reach.next r step) = Step-Quiescent bids step (Reach-Quiescent bids q r)
