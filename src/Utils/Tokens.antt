-- ===== src/Utils/Tokens.antt =====
-- The operations on the pay token and on the demo asset (tools/pkg/utils/erc20.go, nft.go).
use sealed_auction_fce.Prelude.{
  ℕ, Option, none, some, List, [], ◌∷◌, String, Result, ok, err, fail_if, sprintf, ◌==◌, not,
  if◌then◌else◌, to_string, pos,
}
use sealed_auction_fce.Extension.Types.{Address, Hash}
use sealed_auction_fce.Chain.Market.{approve, transfer, mint, approve_nft, balance_of, owner_of}
use sealed_auction_fce.Chain.{
  Log, Outside, Act, Receipt, lift, wrap, perform, view, wait_mined, ◌>>=◌, ◌>>◌,
}
use sealed_auction_fce.Registration.{Library, Support}
use sealed_auction_fce.Utils.{MarketLibrary, prefixed, mined_ok, wait_ok, submitted}

-- The single value of a view's output.
unfoldable pub single_output : String → List ℕ → Result ℕ
single_output text [] = err text
single_output text (v ∷ []) = ok v
single_output text (v ∷ u ∷ rest) = err text

-- The token id of a log of a Transfer event, which has four topics.
unfoldable pub transferred_id : Hash → List Hash → Option ℕ
transferred_id transfer_topic (a ∷ b ∷ c ∷ d ∷ []) = if a == transfer_topic then some d else none
transferred_id transfer_topic other = none

-- The token id of the first Transfer event.
unfoldable pub minted_id : Hash → List Log → Option ℕ
minted_id transfer_topic [] = none
minted_id transfer_topic (lg ∷ logs) = elim (transferred_id transfer_topic lg.topics) [
  | some id ↦ some id
  | none ↦ minted_id transfer_topic logs
]

unfoldable pub minted_in : Hash → Receipt → Result ℕ
minted_in transfer_topic receipt = elim (minted_id transfer_topic receipt.logs) [
  | some id ↦ ok id
  | none ↦ err "Transfer event not found in mint receipt"
]

module _ (lib : Library) (m : MarketLibrary) (out : Outside) (s : Support) where
  -- The binding of an ERC-20 token and the transactor.
  unfoldable pub bind_token : Act (Unit {0})
  bind_token = do
    wrap (prefixed "erc20 bind: ") (lift m.bind_erc20)
    wrap (prefixed "transactor: ") (lift (lib.transactor s.prv s.chain_id))

  unfoldable pub wait_status : String → Hash → Act (Unit {0})
  wait_status label tx = do
    receipt ← wrap (prefixed (sprintf ("wait " ∷ label ∷ ": " ∷ []))) (perform out (wait_mined tx))
    lift (
        fail_if (not (receipt.status == 1))
          (sprintf (label ∷ " failed with status " ∷ to_string (pos receipt.status) ∷ [])))

  -- `Approve`.
  unfoldable pub approve_token : Address → Address → ℕ → Act (Unit {0})
  approve_token token spender amount = do
    bind_token
    tx ← submitted lib m out s "approve: " 0 0 (approve token spender amount)
    wait_status "approve" tx

  -- `TransferToken`, with its gas limit.
  unfoldable pub transfer_token : Address → Address → ℕ → Act (Unit {0})
  transfer_token token to amount = do
    bind_token
    tx ← submitted lib m out s "transfer: " 0 200000 (transfer token to amount)
    wait_status "transfer" tx

  -- `TokenBalance`.
  unfoldable pub token_balance : Address → Address → Act ℕ
  token_balance token account = do
    wrap (prefixed "erc20 bind: ") (lift m.bind_erc20)
    values ← wrap (prefixed "balanceOf: ") (perform out (view token (balance_of account)))
    lift (single_output "balanceOf: unexpected output" values)

  -- `MintDemoAsset`: the id of the new token.
  unfoldable pub mint_demo_asset : Address → Address → Act ℕ
  mint_demo_asset asset to = do
    transfer_topic ← wrap (prefixed "demo asset bind: ") (lift m.bind_asset)
    wrap (prefixed "transactor: ") (lift (lib.transactor s.prv s.chain_id))
    tx ← submitted lib m out s "mint: " 0 0 (mint asset to)
    receipt ← mined_ok lib m out s "wait mint: " "mint transaction failed" tx
    lift (minted_in transfer_topic receipt)

  -- `ApproveNFT`.
  unfoldable pub approve_asset : Address → Address → ℕ → Act (Unit {0})
  approve_asset asset spender token_id = do
    topic ← wrap (prefixed "demo asset bind: ") (lift m.bind_asset)
    wrap (prefixed "transactor: ") (lift (lib.transactor s.prv s.chain_id))
    tx ← submitted lib m out s "approve nft: " 0 0 (approve_nft asset spender token_id)
    wait_ok lib m out s tx "approve nft"

  -- `NFTOwner`.
  unfoldable pub nft_owner : Address → ℕ → Act Address
  nft_owner asset token_id = do
    topic ← wrap (prefixed "demo asset bind: ") (lift m.bind_asset)
    values ← wrap (prefixed "ownerOf: ") (perform out (view asset (owner_of token_id)))
    lift (single_output "ownerOf: unexpected output" values)
