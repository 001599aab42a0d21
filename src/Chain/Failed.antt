-- ===== src/Chain/Failed.antt =====
-- What `CheckTx` returns, and the reason that it gives of a failed transaction
-- (tools/pkg/support/support.go).
use Prim.Native.String.{◌++◌ as append}
use mathlib.Core.Path.{subst}
use sealed_auction_fce.Prelude.{
  ◌≡◌, ◌≢◌, ◌⊎◌, refl, ap, sym, ◌∙◌, inl, inr, some, List, [], ◌∷◌, ◌++◌, String, Result, ok, err,
  map_err, sprintf, is_empty, true, false, length, arith, Bool-cases, Result-cases, Option-cases,
  ◌==◌, ==_iff,
}
use sealed_auction_fce.Extension.Types.{Address, Hash, Bytes}
use sealed_auction_fce.Revert.{RevertLibrary, trim_0x, decode_revert_from_error, failing_text}
use sealed_auction_fce.Chain.{
  Call, Outside, World, Receipt, Transaction, wrap, perform, andthen, on_error, wait_mined,
  transaction_by_hash, replay, get_failing_message, tx_failed, check_tx,
}

module _ (lib : RevertLibrary) where
  -- The revert text that an answer to an eth_call carries: encoded in the data of its error, or in what
  -- it returned.
  abbrev pub Carries : Result Bytes → String → Type 0
  Carries (err e) reason =
      (hex_str : String) × (decoded : Bytes) × (lib.error_data e ≡ some hex_str)
      × (lib.decode_hex (trim_0x hex_str) ≡ ok decoded)
      × (lib.unpack_revert decoded ≡ ok reason)
  Carries (ok result) reason = lib.unpack_revert result ≡ ok reason

  -- The text is what the answer carries; where it carries nothing, or an error carries the empty text,
  -- it is the error's own text, or the hex of what was returned.
  abbrev pub Explains : Result Bytes → String → Type 0
  Explains (err e) text =
      Carries (err e) text
      ⊎ (((reason : String) → Carries (err e) reason → reason ≡ "") × (text ≡ e))
  Explains (ok result) text =
      Carries (ok result) text
      ⊎ (((reason : String) → ¬ Carries (ok result) reason)
          × ((result ≡ []) × (text ≡ "unknown revert reason")
              ⊎ (result ≢ []) × (text ≡ append "0x" (lib.encode_hex result))))

  is_empty_nil : (s : String) → (is_empty s ≡ true) → s ≡ ""
  is_empty_nil String.[] h = refl
  is_empty_nil (String.◌∷◌ c s) h = absurd (cc h)

  error-Explains : (e : String) → Explains (err e) (failing_text lib (err e))
  unfolding failing_text decode_revert_from_error
  error-Explains e = elim (Option-cases (lib.error_data e)) [
    | inl no_data ↦ inr (
      (λ reason (hex_str, decoded, h, d, u). absurd (cc (no_data, h))),
      rw (failing_text, decode_revert_from_error, no_data) refl,
    )
    | inr (hex_str, has) ↦ elim (Result-cases (lib.decode_hex (trim_0x hex_str))) [
      | inr (t, no_hex) ↦ inr (
        (λ reason (hex_str', decoded, h, d, u). absurd (cc (has, no_hex, h, d))),
        rw (failing_text, decode_revert_from_error, has, no_hex) refl,
      )
      | inl (decoded, hex) ↦ elim (Result-cases (lib.unpack_revert decoded)) [
        | inr (t, no_revert) ↦ inr (
          (λ reason (hex_str', decoded', h, d, u). absurd (cc (has, hex, no_revert, h, d, u))),
          rw (failing_text, decode_revert_from_error, has, hex, no_revert) refl,
        )
        | inl (reason, carried) ↦ elim (Bool-cases (is_empty reason)) [
          | inr full ↦
              let said : reason ≡ failing_text lib (err e) =
                rw (failing_text, decode_revert_from_error, has, hex, carried, full) refl in
              inl (hex_str, decoded, has, hex, carried ∙ ap ok said)
          | inl empty ↦ inr (
            (λ reason' (hex_str', decoded', h, d, u).
                cc (has, hex, carried, h, d, u, is_empty_nil reason empty)),
            rw (failing_text, decode_revert_from_error, has, hex, carried, empty) refl,
          )
        ]
      ]
    ]
  ]

  fallback :
      (result : Bytes) (t : String)
      → lib.unpack_revert result ≡ err t
      → ((result ≡ []) × (failing_text lib (ok result) ≡ "unknown revert reason"))
        ⊎ ((result ≢ []) × (failing_text lib (ok result) ≡ append "0x" (lib.encode_hex result)))
  unfolding failing_text
  fallback [] t no_revert = inl (refl, rw (failing_text, no_revert) refl)
  fallback (b ∷ bytes) t no_revert =
      let some_bytes : (0 == length (b ∷ bytes)) ≡ false = ground arith in
      inr ((λ h. cc), rw (failing_text, no_revert, some_bytes) refl)

  result-Explains : (result : Bytes) → Explains (ok result) (failing_text lib (ok result))
  unfolding failing_text
  result-Explains result = elim (Result-cases (lib.unpack_revert result)) [
    | inl (reason, carried) ↦
        let said : reason ≡ failing_text lib (ok result) = rw (failing_text, carried) refl in
        inl (carried ∙ ap ok said)
    | inr (t, no_revert) ↦
        inr ((λ reason u. absurd (cc (no_revert, u))), fallback result t no_revert)
  ]

  failing_text-Explains : (answer : Result Bytes) → Explains answer (failing_text lib answer)
  failing_text-Explains (err e) = error-Explains e
  failing_text-Explains (ok result) = result-Explains result

module _ (out : Outside) (tx : Hash) (w : World) where
  -- The journal after the receipt, and after the transaction, was asked for.
  abbrev pub mined_log : List Call
  mined_log = w.journal ++ wait_mined tx ∷ []

  abbrev pub found_log : List Call
  found_log = mined_log ++ transaction_by_hash tx ∷ []

  -- A reverted transaction is explained by its replay, when it and its sender are found; else the
  -- error is that of the look-up.
  abbrev pub Explained : String → Type 0
  Explained error =
      (out.answer mined_log (transaction_by_hash tx) ≡ err error)
      ⊎ ((t : Transaction) × (out.answer mined_log (transaction_by_hash tx) ≡ ok t)
          × ((t.sender ≡ err error)
              ⊎ ((from : Address) × (reason : String) × (t.sender ≡ ok from)
                  × Explains out.reverts (out.answer found_log (replay from t.content)) reason
                  × (error ≡ sprintf ("error: Transaction fail: " ∷ reason ∷ [])))))

  replayed :
      (receipt : Receipt) (t : Transaction) (from : Address)
      → out.answer w.journal (wait_mined tx) ≡ ok receipt
      → receipt.status == 0 ≡ true
      → out.answer mined_log (transaction_by_hash tx) ≡ ok t
      → t.sender ≡ ok from
      → (reason : String) × Explains out.reverts
          (out.answer found_log (replay from t.content))
          reason
        × ((check_tx out tx w).0 ≡ err (sprintf ("error: Transaction fail: " ∷ reason ∷ [])))
  unfolding check_tx tx_failed get_failing_message perform wrap andthen on_error
  replayed receipt t from mined zero_status found signed =
      elim (Result-cases (out.answer found_log (replay from t.content))) [
        | inl (result, answered) ↦ (
          failing_text out.reverts (ok result),
          subst (λ a. Explains out.reverts a (failing_text out.reverts (ok result))) (sym answered)
              (failing_text-Explains out.reverts (ok result)),
          rw (mined, map_err, zero_status, found, signed, answered) refl,
        )
        | inr (e, answered) ↦ (
          failing_text out.reverts (err e),
          subst (λ a. Explains out.reverts a (failing_text out.reverts (err e))) (sym answered)
              (failing_text-Explains out.reverts (err e)),
          rw (mined, map_err, zero_status, found, signed, answered) refl,
        )
      ]

  reverted_error :
      (receipt : Receipt)
      → out.answer w.journal (wait_mined tx) ≡ ok receipt
      → receipt.status == 0 ≡ true
      → (error : String) × ((check_tx out tx w).0 ≡ err error) × Explained error
  unfolding check_tx tx_failed get_failing_message perform wrap andthen on_error
  reverted_error receipt mined zero_status =
      elim (Result-cases (out.answer mined_log (transaction_by_hash tx))) [
        | inr (e, lost) ↦ (e, rw (mined, map_err, zero_status, lost) refl, inl lost)
        | inl (t, found) ↦ elim (Result-cases t.sender) [
          | inr (e, unsigned) ↦ (
            e,
            rw (mined, map_err, zero_status, found, unsigned) refl,
            inr (t, found, inl unsigned),
          )
          | inl (from, signed) ↦
              let (reason, explains, failed) =
                replayed receipt t from mined zero_status found signed in
              (
                sprintf ("error: Transaction fail: " ∷ reason ∷ []),
                failed,
                inr (t, found, inr (from, reason, signed, explains, refl)),
              )
        ]
      ]

  -- `CheckTx` has three outcomes. The chain answered with a receipt whose status is not 0, and this
  -- receipt is returned; it answered with no receipt, and the error says that the transaction was not
  -- mined; or it answered with a receipt of status 0, and an error is returned, which gives what the
  -- replay of the transaction carries when the transaction and its sender are found.
  pub check_tx_outcome :
      ((receipt : Receipt) × (out.answer w.journal (wait_mined tx) ≡ ok receipt)
        × (receipt.status ≢ 0)
        × ((check_tx out tx w).0 ≡ ok receipt))
      ⊎ (((e : String) × (out.answer w.journal (wait_mined tx) ≡ err e)
            × ((check_tx out tx w).0
                ≡ err (sprintf ("transaction not mined within 2 minutes: " ∷ e ∷ []))))
          ⊎ ((receipt : Receipt) × (error : String) × (out.answer w.journal (wait_mined tx)
                ≡ ok receipt)
              × (receipt.status ≡ 0)
              × ((check_tx out tx w).0 ≡ err error)
              × Explained error))
  unfolding check_tx wrap perform andthen
  check_tx_outcome = elim (Result-cases (out.answer w.journal (wait_mined tx))) [
    | inr (e, unmined) ↦ inr (inl (e, unmined, rw (unmined, map_err) refl))
    | inl (receipt, mined) ↦ elim (Bool-cases (receipt.status == 0)) [
      | inr fine ↦ inl (
        receipt,
        mined,
        (λ h. absurd (cc (fine, (==_iff receipt.status 0).1 h))),
        rw (mined, map_err, fine) refl,
      )
      | inl failed ↦
          let (error, returned, explained) = reverted_error receipt mined failed in
          inr (inr (receipt, error, mined, (==_iff receipt.status 0).0 failed, returned, explained))
    ]
  ]
