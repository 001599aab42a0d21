-- ===== src/Extension/Runs/Steps.antt =====
-- One request (`processAction`, go/internal/extension/extension.go): which changes of the state it can
-- make.
use sealed_auction_fce.Prelude.{
  ◌≡◌, refl, inl, inr, true, Bool-cases, Option, some, String, ℤ, Result, ok, Result-cases,
  to_string, ◌==◌,
}
use sealed_auction_fce.Extension.Types.{
  Bytes, Codec, Action, DataFixed, PlaceBidMessage, BidPayload, CloseMessage, op_type_auction,
  op_command_place_bid, op_command_close_auction,
}
use sealed_auction_fce.Extension.Store.{Extension, is_closed}
use sealed_auction_fce.Extension.Handlers.{
  HttpResponse, close_request, process_place_bid, process_auction, process_action,
}
use sealed_auction_fce.Extension.Handlers.PlaceBid.{Accepts}
use sealed_auction_fce.Extension.Handlers.Effects.{Appended, process_place_bid_outcome}
use sealed_auction_fce.Extension.Handlers.Close.{process_close_auction_outcome}

module _ (codec : Codec) (decrypt : Bytes → Result Bytes) where
  -- The change that one request makes: none, one accepted bid appended, or one auction closed.
  pub data Change (e : Extension) (action : Action) (e' : Extension) : Type 0 where
    unchanged : e' ≡ e → Change e action e'
    placed :
        (df : DataFixed) (w : PlaceBidMessage) (id : ℤ) (plain : Bytes) (p : BidPayload)
        → codec.parse_fixed action.message ≡ ok df
        → Accepts codec decrypt e df w id plain p
        → Appended e e' (to_string id) p df.timestamp
        → Change e action e'
    closed :
        (df : DataFixed) (req : CloseMessage) (id : ℤ)
        → codec.parse_fixed action.message ≡ ok df
        → close_request codec df ≡ ok (req, id)
        → e'.bids ≡ e.bids
        → e'.seq ≡ e.seq
        → is_closed e' (to_string id) ≡ true
        → ((j : String) → is_closed e j ≡ true → is_closed e' j ≡ true)
        → Change e action e'

  -- The request does not panic, and changes the state in one of these ways.
  abbrev pub Answers : Extension → Action → Option (Extension × HttpResponse) → Type 0
  Answers e action result =
      (e' : Extension) × (response : HttpResponse) × (result ≡ some (e', response))
      × Change e action e'

  place_bid_Change :
      (e : Extension) (action : Action) (df : DataFixed)
      → codec.parse_fixed action.message ≡ ok df
      → Change e action (process_place_bid codec decrypt e action df).0
  place_bid_Change e action df parsed = elim (process_place_bid_outcome codec decrypt e df action) [
    | inl refused ↦ Change.unchanged refused.1
    | inr (w, id, plain, p, accepts, appended, status) ↦
        Change.placed df w id plain p parsed accepts appended
  ]

  process_auction-Answers :
      (e : Extension) (action : Action) (df : DataFixed)
      → codec.parse_fixed action.message ≡ ok df
      → Answers e action (process_auction codec decrypt e action df)
  unfolding process_auction
  process_auction-Answers e action df parsed =
      elim (Bool-cases (df.op_command == codec.to_hash op_command_place_bid)) [
        | inl place ↦ rw place (_, _, refl, place_bid_Change e action df parsed)
        | inr other ↦ elim (Bool-cases (df.op_command == codec.to_hash op_command_close_auction)) [
          | inl close ↦ elim (process_close_auction_outcome codec e action df) [
            | inl (t, refused, result) ↦
                rw (other, close, result) (e, _, refl, Change.unchanged refl)
            | inr c ↦
                rw (other, close, c.closes)
                  (
                    c.after,
                    _,
                    refl,
                    Change.closed df c.req c.auction_id parsed c.asked c.same_bids c.same_seq
                        c.marked c.keeps_closed,
                  )
          ]
          | inr unknown ↦ rw (other, unknown) (e, _, refl, Change.unchanged refl)
        ]
      ]

  pub process_action-Answers :
      (e : Extension) (action : Action) → Answers e action (process_action codec decrypt e action)
  unfolding process_action
  process_action-Answers e action = elim (Result-cases (codec.parse_fixed action.message)) [
    | inl (df, parsed) ↦ elim (Bool-cases (df.op_type == codec.to_hash op_type_auction)) [
      | inl auction ↦
          let (e', response, result, change) = process_auction-Answers e action df parsed in
          (e', response, rw (parsed, process_action) (rw auction result), change)
      | inr other ↦ rw (parsed, process_action) (rw other (e, _, refl, Change.unchanged refl))
    ]
    | inr (t, failed) ↦ rw (failed, process_action) (e, _, refl, Change.unchanged refl)
  ]
