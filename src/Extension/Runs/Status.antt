-- ===== src/Extension/Runs/Status.antt =====
-- The HTTP statuses of `actionHandler` (go/internal/extension/utils.go).
use sealed_auction_fce.Prelude.{
  ℕ, ◌≡◌, ◌⊎◌, refl, inl, inr, Bool-cases, Option, some, Result, Result-cases, ◌==◌,
}
use sealed_auction_fce.Extension.Types.{
  Bytes, Codec, Action, DataFixed, op_type_auction, op_command_place_bid, op_command_close_auction,
}
use sealed_auction_fce.Extension.Store.{Extension}
use sealed_auction_fce.Extension.Handlers.{
  Body, HttpResponse, respond, process_auction, process_action, action_handler,
}
use sealed_auction_fce.Extension.Handlers.Close.{process_close_auction_outcome}

-- The handler returns; its status is 200, or it is 400 or 501 and the state is as it was.
abbrev pub Replies : Extension → Option (Extension × HttpResponse) → Type 0
Replies e result =
    (e' : Extension) × (status : ℕ) × (body : Body) × (result ≡ some (e', respond status body))
    × ((status ≡ 200) ⊎ (e' ≡ e) × ((status ≡ 400) ⊎ (status ≡ 501)))

module _ (codec : Codec) (decrypt : Bytes → Result Bytes) (e : Extension) where
  process_auction-Replies :
      (action : Action) (df : DataFixed) → Replies e (process_auction codec decrypt e action df)
  unfolding process_auction
  process_auction-Replies action df =
      elim (Bool-cases (df.op_command == codec.to_hash op_command_place_bid)) [
        | inl place ↦ rw place (_, _, _, refl, inl refl)
        | inr other ↦ elim (Bool-cases (df.op_command == codec.to_hash op_command_close_auction)) [
          | inl close ↦ elim (process_close_auction_outcome codec e action df) [
            | inl (t, refused, result) ↦ rw (other, close, result) (e, _, _, refl, inl refl)
            | inr c ↦ rw (other, close, c.closes) (c.after, _, _, refl, inl refl)
          ]
          | inr unknown ↦ rw (other, unknown) (e, _, _, refl, inr (refl, inr refl))
        ]
      ]

  process_action-Replies : (action : Action) → Replies e (process_action codec decrypt e action)
  unfolding process_action
  process_action-Replies action = elim (Result-cases (codec.parse_fixed action.message)) [
    | inl (df, parsed) ↦ elim (Bool-cases (df.op_type == codec.to_hash op_type_auction)) [
      | inl auction ↦ rw (parsed, process_action) (rw auction (process_auction-Replies action df))
      | inr other ↦ rw (parsed, process_action) (rw other (e, _, _, refl, inr (refl, inr refl)))
    ]
    | inr (t, failed) ↦ rw (failed, process_action) (e, _, _, refl, inr (refl, inl refl))
  ]

  -- Every request gets a reply; a reply that is not 200 is 400 or 501 and leaves the state as it was.
  pub action_handler-Replies : (body : Bytes) → Replies e (action_handler codec decrypt e body)
  unfolding action_handler
  action_handler-Replies body = elim (Result-cases (codec.decode_action body)) [
    | inl (action, decoded) ↦ rw (decoded, action_handler) (process_action-Replies action)
    | inr (t, failed) ↦ rw (failed, action_handler) (e, _, _, refl, inr (refl, inl refl))
  ]
