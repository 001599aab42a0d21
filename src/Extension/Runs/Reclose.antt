-- ===== src/Extension/Runs/Reclose.antt =====
-- Closing an auction a second time (go/internal/extension/extension.go), the recovery path that the
-- comment on `processCloseAuction` describes.
use mathlib.Core.Option.{some-injective}
use sealed_auction_fce.Prelude.{
  ◌≡◌, sym, ap, ◌∙◌, some, List, ℤ, ok, Result-cases, Option-cases, inl, inr, to_string, arith,
}
use sealed_auction_fce.Extension.Types.{Codec, Action, ActionResult, DataFixed, CloseMessage}
use sealed_auction_fce.Extension.Bids.{pick_winner}
use sealed_auction_fce.Extension.Store.{Extension, bids_at, mark_closed}
use sealed_auction_fce.Extension.Store.Access.{bids_at-mark_closed, is_closed-mark_closed}
use sealed_auction_fce.Extension.Handlers.{
  build_result, close_request, close_answer, process_close_auction,
}
use sealed_auction_fce.Extension.Handlers.Close.{
  packed_result, close_answer_settles, process_close_auction_ok,
}
use sealed_auction_fce.Extension.Runs.{Request, run}
use sealed_auction_fce.Extension.Runs.Freeze.{run-Frozen}

-- The parts of a result that are about the auction, and not about the instruction that asked for it.
pub record SameAnswer (r r' : ActionResult) : Type 0 where
  pub same_payload : r'.payload ≡ r.payload
  pub same_status : r'.status ≡ r.status
  pub same_log : r'.log ≡ r.log

module _ (codec : Codec) where
  close_request_same :
      (df df' : DataFixed)
      → df'.original_message ≡ df.original_message
      → close_request codec df' ≡ close_request codec df
  unfolding close_request
  close_request_same df df' h = rw h

  module _ (e e' : Extension) (action action' : Action) (df df' : DataFixed) where
    abbrev readdressed : ActionResult → ActionResult
    readdressed r = record r {
      id = action'.id;
      submission_tag = action'.submission_tag;
      op_type = df'.op_type;
      op_command = df'.op_command;
    }

    close_answer-readdressed :
        (req : CloseMessage) (id : ℤ) (r : ActionResult)
        → bids_at e' (to_string id) ≡ bids_at e (to_string id)
        → close_answer codec e action df req id ≡ some r
        → close_answer codec e' action' df' req id ≡ some (readdressed r)
    unfolding close_answer build_result
    close_answer-readdressed req id r same h =
        elim (Option-cases
          (pick_winner (bids_at e (to_string id)) req.contract_addr req.reserve_price)) [
            | inl panics ↦ absurd (ground arith)
            | inr ((winner, price, found), picked) ↦
                elim (Result-cases
                  (codec.pack_auction_result (packed_result req id winner price))) [
                    | inl (bytes, packed) ↦ ground arith
                    | inr (t, failed) ↦ ground arith
                  ]
          ]

  -- After a close, any requests may follow, one at a time: closing again, by a new instruction with the
  -- same message, gives the same data, status and log.
  pub reclose_same :
      (e e' e'' : Extension) (action action' : Action) (df df' : DataFixed) (req : CloseMessage)
      (id : ℤ) (r : ActionResult) (qs : List Request)
      → close_request codec df ≡ ok (req, id)
      → process_close_auction codec e action df ≡ some (e', r)
      → run codec e' qs ≡ some e''
      → df'.original_message ≡ df.original_message
      → (last : Extension) × (r' : ActionResult) × (process_close_auction codec e'' action' df'
          ≡ some (last, r'))
        × SameAnswer r r'
  reclose_same e e' e'' action action' df df' req id r qs asked closed later message =
      let key = to_string id in
      let (first, winner, price, answered, settled, announced) =
        close_answer_settles codec action df (mark_closed e key) req id in
      let result : some (e', r) ≡ some (mark_closed e key, first) =
        sym closed ∙ process_close_auction_ok codec e action df req id first asked answered in
      let same_state : e' ≡ mark_closed e key =
        ap (λ (u : Extension × ActionResult). u.0) (some-injective _ _ result) in
      let same_result : first ≡ r =
        sym (ap (λ (u : Extension × ActionResult). u.1) (some-injective _ _ result)) in
      let frozen =
        run-Frozen codec key (bids_at e key) (mark_closed e key) e'' qs (rw same_state at later)
          (record {
            marked = is_closed-mark_closed e key;
            holds = bids_at-mark_closed e key key;
          }) in
      let bids : bids_at (mark_closed e'' key) key ≡ bids_at (mark_closed e key) key =
        bids_at-mark_closed e'' key key ∙ frozen.holds ∙ sym (bids_at-mark_closed e key key) in
      let again =
        close_answer-readdressed (mark_closed e key) (mark_closed e'' key) action action' df df' req
          id first bids answered in
      (
        mark_closed e'' key,
        readdressed (mark_closed e key) (mark_closed e'' key) action action' df df' first,
        process_close_auction_ok codec e'' action' df' req id _
            (close_request_same df df' message ∙ asked) again,
        record {
          same_payload = ap (λ (u : ActionResult). u.payload) same_result;
          same_status = ap (λ (u : ActionResult). u.status) same_result;
          same_log = ap (λ (u : ActionResult). u.log) same_result;
        },
      )
