-- ===== src/Extension/Runs/Freeze.antt =====
-- A closed auction stays as it is (go/internal/extension/extension.go): one request at a time, no later
-- request changes its bids, and closing it again gives the same result.
use sealed_auction_fce.Prelude.{
  ◌≡◌, refl, ◌∙◌, true, some, List, [], ◌∷◌, String, Result, to_string,
}
use sealed_auction_fce.Extension.Types.{Bytes, Codec, Action}
use sealed_auction_fce.Extension.Bids.{Bid}
use sealed_auction_fce.Extension.Store.{Extension, bids_at, is_closed}
use sealed_auction_fce.Extension.Store.Access.{bids_at_same, is_closed_same}
use sealed_auction_fce.Extension.Runs.{Request, run}
use sealed_auction_fce.Extension.Runs.Steps.{Change, process_action-Answers}

module _ (codec : Codec) where
  -- The auction is closed and holds these bids.
  pub record Frozen (key : String) (bids : List Bid) (e : Extension) : Type 0 where
    pub marked : is_closed e key ≡ true
    pub holds : bids_at e key ≡ bids

  Change-Frozen :
      {decrypt : Bytes → Result Bytes} {e e' : Extension} {action : Action} (key : String)
      (bids : List Bid)
      → Change codec decrypt e action e'
      → Frozen key bids e
      → Frozen key bids e'
  Change-Frozen key bids (Change.unchanged same) f = rw same f
  Change-Frozen {e = e} {e' = e'} key bids (Change.placed df w id plain p parsed accepts appended)
        f =
      record {
        marked = is_closed_same e e' key appended.same_closed ∙ f.marked;
        holds =
            appended.elsewhere key
              (λ (same : to_string id ≡ key). cc (f.marked, accepts.still_open))
            ∙ f.holds;
      }
  Change-Frozen {e = e} {e' = e'} key bids
        (Change.closed df req id parsed asked same seq marked mono) f =
      record { marked = mono key f.marked; holds = bids_at_same e e' key same ∙ f.holds }

  -- A run never panics.
  pub run_total :
      (e : Extension) (qs : List Request) → (e' : Extension) × (run codec e qs ≡ some e')
  unfolding run
  run_total e [] = (e, refl)
  run_total e (q ∷ qs) =
      let (e', response, answered, change) = process_action-Answers codec q.decrypt e q.action in
      let (last, rest) = run_total e' qs in (last, rw (answered, run) rest)

  pub run-Frozen :
      (key : String) (bids : List Bid) (e e' : Extension) (qs : List Request)
      → run codec e qs ≡ some e'
      → Frozen key bids e
      → Frozen key bids e'
  unfolding run
  run-Frozen key bids e e' [] h f = let same : e ≡ e' = cc in rw (← same) f
  run-Frozen key bids e e' (q ∷ qs) h f =
      let (mid, response, answered, change) = process_action-Answers codec q.decrypt e q.action in
      run-Frozen key bids mid e' qs (rw (answered, run) at h) (Change-Frozen key bids change f)
