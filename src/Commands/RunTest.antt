-- ===== src/Commands/RunTest.antt =====
-- run-test (tools/cmd/run-test/main.go), with the keys of the TEE (tools/pkg/fccutils/ecies.go).
pub mod Flow
pub mod Waiting
pub mod Grows
pub mod Seen
pub mod Passed
use sealed_auction_fce.Prelude.{
  ℤ, negsuc, ltb_ℤ, ◌-◌, ℕ, zero, suc, ◌+◌, ◌%◌, ◌^◌, Bool, true, false, ◌||◌, ◌&&◌, Option, none,
  some, List, [], ◌∷◌, String, Result, ok, err, fail_if, sprintf, is_empty, str_eq, ◌==◌, ltb, leb,
  not, if◌then◌else◌, pos, to_string, map_err,
}
use sealed_auction_fce.Extension.Types.{Address, Hash, Bytes}
use sealed_auction_fce.Chain.{
  Outside, Act, done, stop, lift, on_error, wrap, perform, head_time, sleep, generate_key, chain_id,
  read_random, ◌>>=◌, ◌>>◌,
}
use sealed_auction_fce.Registration.{Library, Support, TeeInfo, tee_info, try}
use sealed_auction_fce.Registration.Production.{action_result}
use sealed_auction_fce.Utils.{MarketLibrary, prefixed}
use sealed_auction_fce.Utils.Instructions.{
  Lot, Settlement, lot_kind_erc721, set_extension_id_of, set_tee_address_of, create_auction_of,
  place_bid_of, close_auction_of, settle_of, send_native,
}
use sealed_auction_fce.Utils.Tokens.{
  approve_token, transfer_token, token_balance, mint_demo_asset, approve_asset, nft_owner,
}
use sealed_auction_fce.Utils.Fxrp.{resolve_fxrp, token_balance_of}

-- The fields of types.ActionResponse that are read.
pub record ActionResponse : Type 0 where
  pub status : ℕ  -- uint8
  pub log : String
  pub content : Bytes
  pub id : Hash
  pub submission_tag : String
  pub signature : Bytes

-- The plaintext of a bid.
pub record Payload : Type 0 where
  pub auction_id : ℕ
  pub contract_addr : Address
  pub bidder : Address
  pub amount_wei : ℤ
  pub salt : Bytes

-- The environment, and the functions of go-ethereum, tee-node and the standard library that only this
-- command calls. `encrypt` takes the random bytes that ecies.Encrypt reads.
pub record TestLibrary : Type 0 where
  pub getenv : String → String
  pub equal_fold : String → String → Bool
  pub has_text : String → String → Bool
  pub hex_to_address : String → Address
  pub parse_machine_key : ℕ × ℕ → Result Bytes
  pub pack_payload : Payload → Result Bytes
  pub encrypt : Bytes → Bytes → Bytes → Result Bytes
  pub unmarshal_action : Bytes → Result ActionResponse
  pub unmarshal_accepted : Bytes → Result Bool
  pub unpack_result : Bytes → Result (Address × ℕ × Address × ℕ)
  pub bind_support : Result (Unit {0})

-- The last four flags are int64, with any sign.
pub record Flags : Type 0 where
  pub proxy_url : String
  pub house : Address  -- the instruction sender
  pub bid_wei : ℤ
  pub losing_bid_wei : ℤ
  pub reserve_wei : ℤ
  pub bidding_seconds : ℤ

-- What the run knows of its auction.
pub record Sale : Type 0 where
  pub seller : Support
  pub pay_token : Address
  pub demo_asset : Address
  pub deadline : ℕ  -- uint64
  pub lot_token_id : ℕ
  pub auction_id : ℕ

-- The conversion of an int64 to uint64.
abbrev pub uint64_of : ℤ → ℕ
uint64_of (pos n) = n % 2 ^ 64
uint64_of (negsuc n) = 2 ^ 64 - 1 - n % 2 ^ 64

module _ (lib : Library) (m : MarketLibrary) (t : TestLibrary) (out : Outside) where
  -- `TeeECIESPublicKey`.
  unfoldable pub tee_ecies_public_key : String → Act Bytes
  tee_ecies_public_key proxy_url = do
    info ← wrap (prefixed "fetch TEE info: ") (tee_info lib out proxy_url)
    lift (
        map_err (prefixed "parse TEE public key: ")
          (t.parse_machine_key info.machine_data.public_key))

  -- `TeeSigningAddress`.
  unfoldable pub tee_signing_address : String → Act Address
  tee_signing_address proxy_url = do
    info ← wrap (prefixed "fetch TEE info: ") (tee_info lib out proxy_url)
    key ← lift (map_err (prefixed "parse TEE public key: ") (lib.parse_pub_key info.public_key))
    done (lib.pub_key_address key)

  -- `EncryptForTee`.
  unfoldable pub encrypt_for_tee : Bytes → Bytes → Act Bytes
  encrypt_for_tee pub_key plaintext = do
    entropy ← wrap (prefixed "ECIES encrypt: ") (perform out read_random)
    lift (map_err (prefixed "ECIES encrypt: ") (t.encrypt entropy pub_key plaintext))

  -- The pay token that PAY_TOKEN names.
  unfoldable pub pay_token_of : Act Address
  pay_token_of =
      let hex = t.getenv "PAY_TOKEN" in
      if is_empty hex || t.equal_fold hex "FXRP"
      then wrap (prefixed "resolve FXRP (set PAY_TOKEN to an ERC-20 address to override): ")
          (resolve_fxrp m out)
        >>= (λ resolved. done resolved.0)
      else done (t.hex_to_address hex)

  unfoldable pub demo_asset_of : Result Address
  demo_asset_of =
      if is_empty (t.getenv "DEMO_ASSET")
      then err "DEMO_ASSET env var not set"
      else ok (t.hex_to_address (t.getenv "DEMO_ASSET"))

  module _ (s : Support) (f : Flags) where
    abbrev pub deployer : Address
    deployer = lib.key_address s.prv

    unfoldable pub check_balance : Address → Act (Unit {0})
    check_balance pay_token = do
      balance ←
          wrap (prefixed "pay-token balanceOf(deployer): ")
            (token_balance_of m out pay_token deployer)
      lift (fail_if (ltb_ℤ (pos balance) f.bid_wei) "deployer holds too few pay-token units")

    -- An id that is set already is no error.
    unfoldable pub configure : Act (Unit {0})
    configure = do
      on_error (set_extension_id_of lib m out s f.house)
          (λ e.
            if t.has_text e "already set" || t.has_text e "Extension ID already set"
            then done tt
            else stop (prefixed "setExtensionId failed — is the extension registered? " e))
          (λ u. done tt)
      tee ← wrap (prefixed "fetch TEE signing address: ") (tee_signing_address f.proxy_url)
      set_tee_address_of lib m out s f.house tee

    -- The ephemeral key, with its gas money.
    unfoldable pub fund_seller : Act Support
    fund_seller = do
      key ← perform out generate_key
      wrap (prefixed "fund second bidder: ")
          (send_native lib m out s (lib.key_address key) 3000000000000000000)
      lift t.bind_support
      chain ← perform out chain_id
      done (record { prv = key; chain_id = chain })

    abbrev lot_of : Sale → Lot
    lot_of sale = record {
      lot = "Sealed-auction e2e test lot (escrowed NFT)";
      lot_kind = lot_kind_erc721;
      lot_token = sale.demo_asset;
      lot_token_id = sale.lot_token_id;
      lot_amount = 0;
      pay_token = sale.pay_token;
      deadline = sale.deadline;
      reserve_price = f.reserve_wei;
    }

    -- Test case 1: the auction, with its lot in escrow.
    unfoldable pub create_sale : Support → Address → Address → Act Sale
    create_sale seller pay_token demo_asset = do
      head ← wrap (prefixed "fetch chain head: ") (perform out head_time)
      token_id ←
          wrap (prefixed "mint demo asset: ")
            (mint_demo_asset lib m out s demo_asset (lib.key_address seller.prv))
      wrap (prefixed "approve lot: ") (approve_asset lib m out seller demo_asset f.house token_id)
      let draft : Sale = record {
        seller = seller;
        pay_token = pay_token;
        demo_asset = demo_asset;
        deadline = (head + uint64_of f.bidding_seconds) % 2 ^ 64;
        lot_token_id = token_id;
        auction_id = 0;
      }
      id ← create_auction_of lib m out seller f.house (lot_of draft)
      holder ← nft_owner lib m out s demo_asset token_id
      lift (fail_if (not (holder == f.house)) "expected the lot to be escrowed")
      done (record {
        seller = seller;
        pay_token = pay_token;
        demo_asset = demo_asset;
        deadline = draft.deadline;
        lot_token_id = token_id;
        auction_id = id;
      })
