-- ===== src/Utils/Operations.antt =====
-- The operations of tools/pkg/utils that send a transaction, with what each may send
-- (instructions.go, erc20.go, nft.go).
use sealed_auction_fce.Prelude.{ℕ, ◌≡◌}
use sealed_auction_fce.Extension.Types.{Address, Hash, Bytes}
use sealed_auction_fce.Chain.Market.{
  MarketTx, set_extension_id, set_tee_address, place_bid, close_auction, approve, transfer, mint,
  approve_nft, native_transfer,
}
use sealed_auction_fce.Chain.{Call, Outside, Act}
use sealed_auction_fce.Registration.{Library, Support}
use sealed_auction_fce.Utils.{MarketLibrary}
use sealed_auction_fce.Utils.Instructions.{
  Lot, Settlement, create_tx, settle_tx, set_extension_id_of, set_tee_address_of, create_auction_of,
  place_bid_of, close_auction_of, settle_of, send_native,
}
use sealed_auction_fce.Utils.Tokens.{approve_token, transfer_token, mint_demo_asset, approve_asset}

-- The operations that send a transaction, with their arguments.
pub data Operation : Type 0 where
  extension_id : Address → Operation
  tee_address : (contract tee : Address) → Operation
  create : Address → Lot → Operation
  bid : Address → (auction_id : ℕ) → (ciphertext : Bytes) → Operation
  close : Address → (auction_id : ℕ) → Operation
  settlement : Address → Settlement → Operation
  native : (to : Address) → (amount : ℕ) → Operation
  allowance : (token spender : Address) → (amount : ℕ) → Operation
  payment : (token to : Address) → (amount : ℕ) → Operation
  minting : (asset to : Address) → Operation
  permission : (asset spender : Address) → (token_id : ℕ) → Operation

abbrev pub Outcome : Operation → Type 0
Outcome (create contract l) = ℕ
Outcome (bid contract auction_id ciphertext) = Hash × Hash
Outcome (close contract auction_id) = Hash × Hash
Outcome (settlement contract t) = Hash
Outcome (minting asset to) = ℕ
Outcome _ = Unit

-- The value, the gas limit and the transaction are those of the operation; the nonce and the gas
-- price of a native transfer are what the chain answered.
abbrev pub Meant : Operation → ℕ → ℕ → MarketTx → Type 0
Meant (extension_id contract) v g t = (v ≡ 0) × (g ≡ 0) × (t ≡ set_extension_id contract)
Meant (tee_address contract tee) v g t = (v ≡ 0) × (g ≡ 0) × (t ≡ set_tee_address contract tee)
Meant (create contract l) v g t = (v ≡ 0) × (g ≡ 0) × (t ≡ create_tx contract l)
Meant (bid contract id ciphertext) v g t =
    (v ≡ 1000000) × (g ≡ 0) × (t ≡ place_bid contract id ciphertext)
Meant (close contract id) v g t = (v ≡ 1000000) × (g ≡ 0) × (t ≡ close_auction contract id)
Meant (settlement contract s) v g t = (v ≡ 0) × (g ≡ 0) × (t ≡ settle_tx contract s)
Meant (native to amount) v g t =
    (v ≡ amount) × (g ≡ 21000) × (nonce : ℕ) × (price : ℕ) × (t ≡ native_transfer to nonce price)
Meant (allowance token spender amount) v g t =
    (v ≡ 0) × (g ≡ 0) × (t ≡ approve token spender amount)
Meant (payment token to amount) v g t = (v ≡ 0) × (g ≡ 200000) × (t ≡ transfer token to amount)
Meant (minting asset to) v g t = (v ≡ 0) × (g ≡ 0) × (t ≡ mint asset to)
Meant (permission asset spender id) v g t = (v ≡ 0) × (g ≡ 0) × (t ≡ approve_nft asset spender id)

-- A call of the operation with this key: no other transaction.
abbrev pub Proper : Operation → ℕ → Call → Type 0
Proper o key (Call.submit k v g t) = (k ≡ key) × Meant o v g t
Proper o key (Call.deploy_auction k e m) = ⊥
Proper o key (Call.send signer v t) = ⊥
Proper o key _ = Unit

module _ (lib : Library) (m : MarketLibrary) (out : Outside) (s : Support) where
  unfoldable pub run_operation : (o : Operation) → Act (Outcome o)
  run_operation (extension_id contract) = set_extension_id_of lib m out s contract
  run_operation (tee_address contract tee) = set_tee_address_of lib m out s contract tee
  run_operation (create contract l) = create_auction_of lib m out s contract l
  run_operation (bid contract id ciphertext) = place_bid_of lib m out s contract id ciphertext
  run_operation (close contract id) = close_auction_of lib m out s contract id
  run_operation (settlement contract t) = settle_of lib m out s contract t
  run_operation (native to amount) = send_native lib m out s to amount
  run_operation (allowance token spender amount) = approve_token lib m out s token spender amount
  run_operation (payment token to amount) = transfer_token lib m out s token to amount
  run_operation (minting asset to) = mint_demo_asset lib m out s asset to
  run_operation (permission asset spender id) = approve_asset lib m out s asset spender id
