-- ===== src/Chain/Market.antt =====
-- The transactions and views of the auction contract and of the tokens, as the callers in
-- tools/pkg/utils (instructions.go, erc20.go, nft.go) use them.
use sealed_auction_fce.Prelude.{ℤ, ℕ, String}
use sealed_auction_fce.Extension.Types.{Address, Hash, Bytes}

-- The first argument is the contract, but for a native transfer, which has the receiver.
pub data MarketTx : Type 0 where
  set_extension_id : Address → MarketTx
  set_tee_address : Address → (tee : Address) → MarketTx
  create_auction :
      Address
      → (lot : String) → (lot_kind : ℕ) → (lot_token : Address) → (lot_token_id lot_amount : ℕ)
      → (pay_token : Address) → (deadline : ℕ) → (reserve_price : ℤ) → MarketTx
  place_bid : Address → (auction_id : ℕ) → (ciphertext : Bytes) → MarketTx
  close_auction : Address → (auction_id : ℕ) → MarketTx
  settle :
      Address
      → (result : Bytes) → (action_id : Hash) → (submission_tag : String) → (status : ℕ)
      → (signature : Bytes) → MarketTx
  native_transfer : (to : Address) → (nonce gas_price : ℕ) → MarketTx
  approve : Address → (spender : Address) → (amount : ℕ) → MarketTx
  transfer : Address → (to : Address) → (amount : ℕ) → MarketTx
  mint : Address → (to : Address) → MarketTx
  approve_nft : Address → (to : Address) → (token_id : ℕ) → MarketTx

pub data View : Type 0 where
  balance_of : Address → View
  owner_of : (token_id : ℕ) → View
