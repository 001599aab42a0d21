-- ===== src/Utils.antt =====
-- The instructions and the tokens (tools/pkg/utils): the third-party functions that are called, and
-- what the operations share. Log lines are left out.
pub mod Instructions
pub mod Tokens
pub mod Fxrp
pub mod Asked
pub mod Operations
pub mod Sent
use sealed_auction_fce.Prelude.{
  ℕ, Bool, Option, none, some, List, [], ◌∷◌, String, Result, ok, err, map_err, fail_if, sprintf,
  ◌==◌, not,
}
use sealed_auction_fce.Extension.Types.{Address, Hash, Bytes}
use sealed_auction_fce.Chain.Market.{MarketTx}
use sealed_auction_fce.Chain.{
  Log, Call, Outside, Act, Receipt, lift, wrap, perform, submit, wait_mined, ◌>>=◌, ◌>>◌,
}
use sealed_auction_fce.Registration.{Library, Support}

-- The bindings and ABI functions that the operations call besides those of `Library`: whether the
-- ABIs load (`bind_asset` with the id of the Transfer event), the parsers of logs, the signing of a
-- native transfer, and the coding of the calls of fxrp.go.
pub record MarketLibrary : Type 0 where
  pub bind_auction : Address → Result (Unit {0})
  pub bind_erc20 : Result (Unit {0})
  pub bind_asset : Result Hash
  pub has_auction_abi : Bool
  pub pack_set_extension_id : Result Bytes
  pub parse_auction_created : Log → Result ℕ
  pub sign_tx : MarketTx → (value gas chain_id key : ℕ) → Result (Unit {0})
  pub method_id : String → List String → Bytes
  pub pack_string : String → Result Bytes
  pub pack_address : Address → Result Bytes
  pub unpack_address : Bytes → Result Address
  pub unpack_uint8 : Bytes → Result ℕ
  pub unpack_uint256 : Bytes → Result ℕ

abbrev pub prefixed : String → String → String
prefixed text e = sprintf (text ∷ e ∷ [])

-- The first log that the parser accepts.
unfoldable pub first_parsed : {A : Type 0} → (Log → Result A) → List Log → Option A
first_parsed parse [] = none
first_parsed parse (lg ∷ logs) = elim (parse lg) [ ok a ↦ some a | err e ↦ first_parsed parse logs ]

module _ (lib : Library) (m : MarketLibrary) (out : Outside) (s : Support) where
  -- The binding of the auction contract and the transactor, with which most operations start.
  unfoldable pub bind_sender : Address → Act (Unit {0})
  bind_sender contract = do
    wrap (prefixed "failed to bind contract: ") (lift (m.bind_auction contract))
    wrap (prefixed "failed to create transactor: ") (lift (lib.transactor s.prv s.chain_id))

  -- The receipt of a transaction that must be mined with success.
  unfoldable pub mined_ok : String → String → Hash → Act Receipt
  mined_ok wait_text failed_text tx = do
    receipt ← wrap (prefixed wait_text) (perform out (wait_mined tx))
    lift (fail_if (not (receipt.status == 1)) failed_text)
    lift (ok receipt)

  -- `waitOK`.
  unfoldable pub wait_ok : Hash → String → Act (Unit {0})
  wait_ok tx label = do
    receipt ←
        mined_ok (sprintf ("failed waiting for " ∷ label ∷ " transaction: " ∷ []))
          (sprintf (label ∷ " transaction failed" ∷ [])) tx
    lift (ok tt)

  -- What `instructionFromTx` makes of the logs of a receipt.
  unfoldable pub instruction_in : String → Receipt → Result (Hash × Hash)
  instruction_in label receipt = elim (first_parsed lib.parse_instructions_sent receipt.logs) [
    | some id ↦ ok (id, receipt.tx_hash)
    | none ↦ err (sprintf ("TeeInstructionsSent event not found in " ∷ label ∷ " receipt" ∷ []))
  ]

  -- `instructionFromTx`: the instruction id and the hash of the transaction.
  unfoldable pub instruction_from_tx : Hash → String → Act (Hash × Hash)
  instruction_from_tx tx label = do
    receipt ←
        mined_ok (sprintf ("failed waiting for " ∷ label ∷ " transaction: " ∷ []))
          (sprintf (label ∷ " transaction failed" ∷ [])) tx
    lift (instruction_in label receipt)

  -- A transaction that is sent with an error prefix.
  unfoldable pub submitted : String → ℕ → ℕ → MarketTx → Act Hash
  submitted text value gas_limit tx =
      wrap (prefixed text) (perform out (submit s.prv value gas_limit tx))
