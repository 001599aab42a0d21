-- ===== src/Utils/Fxrp.antt =====
-- The FXRP token (tools/pkg/utils/fxrp.go).
use sealed_auction_fce.Prelude.{
  ℕ, Option, none, some, List, [], ◌∷◌, ◌++◌, String, Result, ok, fail_if, ◌==◌,
}
use sealed_auction_fce.Extension.Types.{Address, Bytes}
use sealed_auction_fce.Chain.{Outside, Act, done, lift, wrap, perform, call_contract, ◌>>=◌, ◌>>◌}
use sealed_auction_fce.Utils.{MarketLibrary, prefixed}

-- `FlareContractRegistry`.
abbrev pub flare_contract_registry : Address
flare_contract_registry = 0xaD67FE66660Fb8dFE9d6b1b4240d8650e30F6019

module _ (m : MarketLibrary) (out : Outside) where
  -- The packed arguments and their types.
  unfoldable pub packed_argument : Option String → Result Bytes
  packed_argument none = ok []
  packed_argument (some argument) = m.pack_string argument

  unfoldable pub argument_types : Option String → List String
  argument_types none = []
  argument_types (some argument) = "string" ∷ []

  -- `callForAddress`.
  unfoldable pub call_for_address : Address → String → Option String → Act Address
  call_for_address to method argument = do
    packed ← lift (packed_argument argument)
    output ← perform out (call_contract to (m.method_id method (argument_types argument) ++ packed))
    lift (m.unpack_address output)

  -- `tokenDecimals`.
  unfoldable pub token_decimals : Address → Act ℕ
  token_decimals token = do
    output ← perform out (call_contract token (m.method_id "decimals" []))
    lift (m.unpack_uint8 output)

  -- `ResolveFXRP`: the token and its decimals.
  unfoldable pub resolve_fxrp : Act (Address × ℕ)
  resolve_fxrp = do
    asset_manager ← wrap (prefixed "resolve AssetManagerFXRP: ") (
        call_for_address flare_contract_registry "getContractAddressByName"
          (some "AssetManagerFXRP"))
    lift (
        fail_if (asset_manager == 0)
          "AssetManagerFXRP not found in FlareContractRegistry — is FXRP deployed on this chain?")
    token ← wrap (prefixed "AssetManager.fAsset(): ") (call_for_address asset_manager "fAsset" none)
    decimals ← wrap (prefixed "FXRP decimals(): ") (token_decimals token)
    done (token, decimals)

  -- `TokenBalanceOf`.
  unfoldable pub token_balance_of : Address → Address → Act ℕ
  token_balance_of token account = do
    packed ← lift (m.pack_address account)
    output ← perform out (call_contract token (m.method_id "balanceOf" ("address" ∷ []) ++ packed))
    lift (m.unpack_uint256 output)
