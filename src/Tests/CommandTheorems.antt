-- ===== src/Tests/CommandTheorems.antt =====
-- The theorems about tools/cmd, the addresses file and the announced winner, each applied to small
-- inputs.
use sealed_auction_fce.Prelude.{
  ◌≢◌, ◌⊎◌, ℕ, ◌≡◌, ◌↔◌, refl, some, [], ◌∷◌, List, String, Result, ok, err, pos, arith, false,
  str_eq, if◌then◌else◌, sprintf,
}
use sealed_auction_fce.Extension.Types.{CloseMessage}
use sealed_auction_fce.Extension.Handlers.{close_request}
use sealed_auction_fce.Extension.Runs.House.Announced.{AnnouncesHouse, close_settles_house}
use sealed_auction_fce.Chain.{Call, Answer, Outside, Receipt, Transaction, check_tx}
use sealed_auction_fce.Chain.Failed.{Explained, check_tx_outcome}
use sealed_auction_fce.Chain.Journal.{Added}
use sealed_auction_fce.Addresses.{RawContract, SupportLibrary, no_addresses, addresses_in}
use sealed_auction_fce.Addresses.Last.{LastOf, addresses_in-LastOf}
use sealed_auction_fce.Commands.Register.{ClaimLibrary, allow_tee_version}
use sealed_auction_fce.Commands.Register.Versions.{AddsVersion, allow_tee_version-AddsVersion}
use sealed_auction_fce.Commands.Govern.{governance_key, set_governance_of}
use sealed_auction_fce.Commands.Govern.Chosen.{GovernsAlone, set_governance_of-GovernsAlone}
use sealed_auction_fce.Commands.Verify.{verify_deploy}
use sealed_auction_fce.Commands.Verify.Exit.{Verified, verify_deploy_exit}
use sealed_auction_fce.Tests.Auction.{codec, alice, bob, action_of, df_of, close_message}
use sealed_auction_fce.Tests.Tools.{answer_of, library, outside, resumed, support, env}

abbrev close_read_message : CloseMessage
close_read_message = record {
  auction_id = some (pos 5);
  contract_addr = 170;
  reserve_price = some (pos 60);
  deadline = 1000;
}

close_read : close_request codec (df_of 3 1001 close_message) ≡ ok (close_read_message, pos 5)
unfolding close_request
close_read = refl

close_settles_house_example :
    AnnouncesHouse codec
      (alice ∷ bob ∷ [])
      (action_of [])
      (df_of 3 1001 close_message)
      close_read_message
      (pos 5)
close_settles_house_example =
    close_settles_house codec (alice ∷ bob ∷ []) (action_of []) (df_of 3 1001 close_message)
      close_read_message (pos 5) (omega arith) close_read

abbrev support_library : SupportLibrary
support_library = record {
  getenv = λ name. "";
  hex_to_address = λ s. if str_eq s "0x0a" then 10 else 11;
  hex_to_ecdsa = λ s. ok 71;
  unmarshal_addresses = λ bytes. err "an array";
  unmarshal_contracts = λ bytes. ok [];
  bind = λ b address. ok tt;
}

-- The manager is listed twice.
abbrev contracts : List RawContract
contracts =
    record { name = "FlareTeeManager"; contract_name = "Diamond"; address = "0x0a" }
    ∷ record { name = "Relay"; contract_name = "Relay"; address = "0x0a" }
    ∷ record { name = "FlareTeeManager"; contract_name = "Diamond"; address = "0x0b" }
    ∷ []

addresses_in-LastOf_example :
    LastOf support_library contracts no_addresses (addresses_in support_library contracts)
addresses_in-LastOf_example = addresses_in-LastOf support_library contracts

abbrev claims : ClaimLibrary
claims = record {
  Claims = Unit;
  parse_claims = λ token. ok tt;
  code_hash = λ c. ok 12;
  platform = λ c. ok 13;
  has_text = λ s part. false;
}

allow_tee_version-AddsVersion_example :
    Added
      (AddsVersion library support_library claims outside support "http://proxy"
        (118 ∷ 49 ∷ [])
        resumed)
      resumed
      (allow_tee_version library support_library claims outside support "http://proxy"
        (118 ∷ 49 ∷ [])
        resumed).1
allow_tee_version-AddsVersion_example =
    allow_tee_version-AddsVersion library support_library claims outside support "http://proxy"
      (118 ∷ 49 ∷ []) resumed

abbrev no_number : String → Result ℕ
no_number text = err "invalid syntax"

own_key : governance_key support_library no_number support ≡ ok 71
unfolding governance_key
own_key = refl

set_governance_of-GovernsAlone_example :
    Added
      (GovernsAlone support_library no_number library outside support "http://proxy" resumed 71)
      resumed
      (set_governance_of support_library no_number library outside support "http://proxy" resumed).1
set_governance_of-GovernsAlone_example =
    set_governance_of-GovernsAlone support_library no_number library outside support "http://proxy"
      71 "invalid syntax" resumed refl refl refl own_key

verify_deploy_exit_example :
    ((verify_deploy env (err "no node") "extension.env" "test" "E1, E6").0 ≡ 0)
    ↔ Verified env (err "no node") "extension.env" "test" "E1, E6"
verify_deploy_exit_example = verify_deploy_exit env (err "no node") "extension.env" "test" "E1, E6"

-- A transaction that was mined and reverted with "paused".
abbrev reverted_receipt : Receipt
reverted_receipt = record { status = 0; tx_hash = 61; logs = [] }

abbrev found_tx : Transaction
found_tx = record { sender = ok 71; content = 1 ∷ [] }

abbrev reverting_answer : (c : Call) → Result (Answer c)
reverting_answer (Call.wait_mined tx) = ok reverted_receipt
reverting_answer (Call.transaction_by_hash tx) = ok found_tx
reverting_answer (Call.replay from content) = err "execution reverted"
reverting_answer c = answer_of c

abbrev reverting : Outside
reverting = record {
  answer = λ calls c. reverting_answer c;
  torn = λ old content. old;
  reverts = record {
    decode_hex = λ text. ok (8 ∷ 195 ∷ 121 ∷ 160 ∷ []);
    encode_hex = λ bytes. "08c379a0";
    error_data = λ e. some "0x08c379a0";
    unpack_revert = λ bytes. ok "paused";
  };
}

check_tx_outcome_example :
    let answered = reverting.answer resumed.journal (Call.wait_mined 61) in
    ((receipt : Receipt) × (answered ≡ ok receipt)
      × (receipt.status ≢ 0)
      × ((check_tx reverting 61 resumed).0 ≡ ok receipt))
    ⊎ (((e : String) × (answered ≡ err e)
          × ((check_tx reverting 61 resumed).0
              ≡ err (sprintf ("transaction not mined within 2 minutes: " ∷ e ∷ []))))
        ⊎ ((receipt : Receipt) × (error : String) × (answered ≡ ok receipt)
            × (receipt.status ≡ 0)
            × ((check_tx reverting 61 resumed).0 ≡ err error)
            × Explained reverting 61 resumed error))
check_tx_outcome_example = check_tx_outcome reverting 61 resumed
