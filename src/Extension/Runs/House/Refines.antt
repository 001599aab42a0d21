-- ===== src/Extension/Runs/House/Refines.antt =====
-- The code refines the abstract auction house (go/internal/extension/extension.go).
use mathlib.Core.Option.{some-injective}
use sealed_auction_fce.Prelude.{
  ◌+◌, ◌<◌, ◌^◌, ◌≡◌, refl, ap, sym, ◌∙◌, Bool-cases, inl, inr, Option, Option-cases, none, some,
  List, [], ◌∷◌, Result, Result-cases, to_string, ◌==◌, arith, length, map_get, ◌≤◌,
}
use sealed_auction_fce.Extension.Types.{
  Bytes, Codec, Action, ActionResult, DataFixed, op_type_auction, op_command_place_bid,
  op_command_close_auction,
}
use sealed_auction_fce.Extension.Store.{Extension, new, bids_at, is_closed, mark_closed}
use sealed_auction_fce.Extension.Handlers.{
  HttpResponse, respond, marshalled, place_bid_request, open_bid, close_request, close_answer,
  check_bid, process_place_bid, process_close_auction, process_auction, process_action,
}
use sealed_auction_fce.Extension.Runs.{Request, run}
use sealed_auction_fce.Extension.Runs.Steps.{process_action-Answers}
use sealed_auction_fce.Extension.Runs.House.{
  House, Command, bid, close, nothing, empty_house, obey, obey_all, bid_meant, close_meant, meaning,
  meanings, house_of,
}
use sealed_auction_fce.Extension.Runs.House.Obeyed.{too_late, store_bid-obey, mark_closed-obey}

module _ (codec : Codec) (decrypt : Bytes → Result Bytes) (e : Extension) (action : Action)
    (df : DataFixed) where
  place_bid-obey :
      e.seq + 1 < 2 ^ 64
      → house_of (process_place_bid codec decrypt e action df).0
        ≡ obey (house_of e) (bid_meant codec decrypt df)
  unfolding process_place_bid check_bid bid_meant
  place_bid-obey room = elim (Result-cases (place_bid_request codec df)) [
    | inr (t, malformed) ↦ rw (malformed, process_place_bid, check_bid, bid_meant) refl
    | inl ((wrapper, id), asked) ↦ elim (Bool-cases (is_closed e (to_string id))) [
      | inl over ↦ elim (Result-cases (open_bid codec decrypt wrapper id)) [
        | inr (t, sealed) ↦ rw (asked, over, sealed, process_place_bid, check_bid, bid_meant) refl
        | inl (p, opened) ↦
            rw (asked, over, opened, process_place_bid, check_bid, bid_meant)
              (sym (too_late e id p df.timestamp over))
      ]
      | inr is_open ↦ elim (Result-cases (open_bid codec decrypt wrapper id)) [
        | inr (t, sealed) ↦
            rw (asked, is_open, sealed, process_place_bid, check_bid, bid_meant) refl
        | inl (p, opened) ↦
            rw (asked, is_open, opened, process_place_bid, check_bid, bid_meant)
              (store_bid-obey e id p df.timestamp room is_open)
      ]
    ]
  ]

module _ (codec : Codec) (e : Extension) (action : Action) (df : DataFixed) where
  close-obey :
      (e' : Extension) (r : ActionResult)
      → process_close_auction codec e action df ≡ some (e', r)
      → house_of e' ≡ obey (house_of e) (close_meant codec df)
  unfolding process_close_auction close_meant
  close-obey e' r = elim (Result-cases (close_request codec df)) [
    | inr (t, malformed) ↦
        rw (malformed, process_close_auction, close_meant)
          (λ h. sym (ap (λ (x : Extension × ActionResult). house_of x.0) (some-injective _ _ h)))
    | inl ((req, id), asked) ↦
        elim (Option-cases (close_answer codec (mark_closed e (to_string id)) action df req id)) [
          | inl panic ↦ rw (asked, panic, process_close_auction, close_meant) (λ h. absurd (cc h))
          | inr (answer, answered) ↦
              rw (asked, answered, process_close_auction, close_meant)
                (λ h.
                  sym (ap (λ (x : Extension × ActionResult). house_of x.0) (some-injective _ _ h))
                  ∙ mark_closed-obey e id)
        ]
  ]

abbrev answered : Extension → HttpResponse → Option (Extension × HttpResponse)
answered e r = some (e, r)

abbrev close_response : Option (Extension × ActionResult) → Option (Extension × HttpResponse)
close_response none = none
close_response (some (e, ar)) = some (e, respond 200 (marshalled ar))

kept :
    (e e' : Extension) (x r : HttpResponse)
    → answered e x ≡ answered e' r
    → house_of e' ≡ house_of e
kept e e' x r h = sym (ap (λ (u : Extension × HttpResponse). house_of u.0) (some-injective _ _ h))

module _ (codec : Codec) where
  close_auction-obey :
      (e e' : Extension) (r : HttpResponse) (action : Action) (df : DataFixed)
      → close_response (process_close_auction codec e action df) ≡ answered e' r
      → house_of e' ≡ obey (house_of e) (close_meant codec df)
  close_auction-obey e e' r action df =
      elim (Option-cases (process_close_auction codec e action df)) [
        | inl panic ↦ rw panic (λ h. absurd (cc h))
        | inr ((mid, ar), closed) ↦
            rw closed (λ h. kept mid e' _ r h ∙ close-obey codec e action df mid ar closed)
      ]

  process_action-obey :
      (q : Request) (e e' : Extension) (r : HttpResponse)
      → e.seq + 1 < 2 ^ 64
      → process_action codec q.decrypt e q.action ≡ some (e', r)
      → house_of e' ≡ obey (house_of e) (meaning codec q)
  unfolding process_action process_auction meaning
  process_action-obey q e e' r room = elim (Result-cases (codec.parse_fixed q.action.message)) [
    | inr (t, failed) ↦ rw (failed, process_action, meaning) (kept e e' _ r)
    | inl (df, parsed) ↦ elim (Bool-cases (df.op_type == codec.to_hash op_type_auction)) [
      | inr other ↦ rw (parsed, other, process_action, meaning) (kept e e' _ r)
      | inl auction ↦ elim (Bool-cases (df.op_command == codec.to_hash op_command_place_bid)) [
        | inl place ↦
            rw (parsed, auction, place, process_action, process_auction, meaning)
              (λ h. kept _ e' _ r h ∙ place_bid-obey codec q.decrypt e q.action df room)
        | inr not_place ↦
            elim (Bool-cases (df.op_command == codec.to_hash op_command_close_auction)) [
              | inl closes ↦
                  rw (parsed, auction, not_place, closes, process_action, process_auction, meaning)
                    (close_auction-obey e e' r q.action df)
              | inr unknown ↦
                  rw (parsed, auction, not_place, unknown, process_action, process_auction, meaning)
                    (kept e e' _ r)
            ]
      ]
    ]
  ]

  obey_placed : (h : House) (c : Command) → (obey h c).placed ≤ h.placed + 1
  obey_placed h (bid id p timestamp) = elim (Bool-cases (h.closed id)) [
    | inl over ↦ rw over (omega arith)
    | inr is_open ↦ rw is_open (omega arith)
  ]
  obey_placed h (close id) = omega arith
  obey_placed h nothing = omega arith

  run-obey_all :
      (qs : List Request) (e : Extension)
      → e.seq + length qs < 2 ^ 64
      → (e' : Extension) × (run codec e qs ≡ some e')
        × (house_of e' ≡ obey_all (house_of e) (meanings codec qs))
  unfolding run
  run-obey_all [] e room = (e, refl, refl)
  run-obey_all (q ∷ qs) e room =
      let (mid, response, answer, change) = process_action-Answers codec q.decrypt e q.action in
      let stepped = process_action-obey q e mid response (omega arith) answer in
      let (e', ran, same) = run-obey_all qs mid (
        omega (
          arith,
          ap (λ (h : House). h.placed) stepped,
          obey_placed (house_of e) (meaning codec q),
        )) in
      (e', rw (answer, run) ran, same ∙ ap (λ k. obey_all k (meanings codec qs)) stepped)

  new_house : house_of new ≡ empty_house
  unfolding new bids_at is_closed map_get
  new_house = refl

  seq_of_new : new.seq ≡ 0
  unfolding new
  seq_of_new = refl

  -- Fewer than 2 ^ 64 requests to a fresh process never make it panic, and leave it, whatever the
  -- requests and the decryptions are, in the state that an empty auction house reaches when it obeys
  -- the meanings of the requests in their order: for every auction the same bids in the same order,
  -- closed or open alike, and as many bids placed.
  pub run_refines :
      (qs : List Request)
      → length qs < 2 ^ 64
      → (e : Extension) × (run codec new qs ≡ some e)
        × (house_of e ≡ obey_all empty_house (meanings codec qs))
  run_refines qs room =
      let (e, ran, same) = run-obey_all qs new (omega (arith, seq_of_new)) in
      (e, ran, same ∙ ap (λ k. obey_all k (meanings codec qs)) new_house)
