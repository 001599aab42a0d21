-- ===== src/Tests/Tools.antt =====
-- A chain, services and a file for the tools (tools/pkg/fccutils, tools/pkg/validate) on small inputs.
use sealed_auction_fce.Prelude.{
  none, some, List, [], ◌∷◌, String, Result, ok, err, true, false, pos, str_eq, if◌then◌else◌,
}
use sealed_auction_fce.Extension.Types.{Bytes, Hash}
use sealed_auction_fce.Revert.{RevertLibrary, AbiError}
use sealed_auction_fce.Chain.{Log, Call, Answer, Outside, World, MachineData, Receipt}
use sealed_auction_fce.Registration.{Library, Support, TeeInfo, RegistrationState}
use sealed_auction_fce.Report.{pass, warn, fail, Report}
use sealed_auction_fce.Checks.{Client, Registry, Env, result_of}

abbrev pub reverts : RevertLibrary
reverts = record {
  decode_hex = λ s. err "odd length";
  encode_hex = λ b. "00";
  error_data = λ e. none;
  unpack_revert = λ b. err "no selector";
}

-- A revert of five bytes.
abbrev pub five_bytes : Bytes
five_bytes = 1 ∷ 2 ∷ 3 ∷ 4 ∷ 5 ∷ []

abbrev pub raw_reverts : RevertLibrary
raw_reverts = record {
  decode_hex = λ s. ok five_bytes;
  encode_hex = λ b. "0102030405";
  error_data = λ e. none;
  unpack_revert = λ b. err "no selector";
}

abbrev pub challenge_expired : AbiError
challenge_expired = record {
  name = "ChallengeExpired";
  selector = 1 ∷ 2 ∷ 3 ∷ 4 ∷ [];
  unpack = λ b. ok "[]";
}

abbrev pub machine : MachineData
machine = record {
  extension_id = 5;
  initial_owner = 11;
  code_hash = 12;
  platform = 13;
  public_key = (14, 15);
  governance_hash = 16;
}

abbrev pub info : TeeInfo
info = record {
  public_key = 1 ∷ [];
  chain_id = 114;
  info = [];
  attestation = "";
  last_signing_policy_id = 7;
  machine_data = machine;
  data_signature = [];
  proxy_signature = [];
}

-- The state after the steps "r" and "R".
abbrev pub half_done : RegistrationState
half_done = record { completed_steps = "rR"; tee_attest_instruction_id = 21; instruction_id = 0 }

-- The governance hash of all signers and thresholds is the given one.
abbrev pub library_of : Hash → Library
library_of hash_of_governance = record {
  transactor = λ key chain. ok tt;
  key_address = λ key. key;
  parse_pub_key = λ bytes. ok bytes;
  pub_key_address = λ bytes. 31;
  tee_info_hash = λ i. ok [];
  proxy_payload_hash = λ chain hash. ok hash;
  text_hash = λ bytes. bytes;
  sig_to_pub = λ hash sig. ok hash;
  transform_signature = λ sig. ok sig;
  parse_attestation_requested = λ log. ok 22;
  parse_instructions_sent = λ log. ok 23;
  hex_to_hash = λ s. 0;
  hash_hex = λ h. "0x17";
  marshal_state = λ st. ok (9 ∷ []);
  unmarshal_state = λ bytes. ok half_done;
  unmarshal_tee_info = λ bytes. ok info;
  unmarshal_proof = λ bytes. ok (record { tee_id = 31; content = [] });
  register_abi = err "no ABI";
  pack_register = λ tx. err "no ABI";
  governance_hash = λ signers threshold. ok hash_of_governance;
  parse_extension_registered = λ log. ok 5;
  parse_contracts_set = λ log. ok tt;
  parse_machine_owners_added = λ log. ok tt;
  parse_project_owners_added = λ log. ok tt;
  evm_type = 51;
  reverts = reverts;
  diagnosis = record {
    payload = λ e. none;
    from_hex = λ text. [];
    quote = λ text. text;
    verification_abi = ok [];
    fdc2_hub_abi = err "no ABI";
    extension_manager_abi = ok [];
  };
}

abbrev pub library : Library
library = library_of 41

abbrev pub zero_hashes : Library
zero_hashes = library_of 0

abbrev pub no_topics : Log
no_topics = record { topics = []; content = [] }

abbrev pub mined : Receipt
mined = record { status = 1; tx_hash = 61; logs = no_topics ∷ no_topics ∷ [] }

abbrev pub answer_of : (c : Call) → Result (Answer c)
answer_of (Call.send signer value tx) = ok 61
answer_of (Call.wait_mined tx) = ok mined
answer_of (Call.transaction_by_hash tx) = ok (record { sender = ok 71; content = [] })
answer_of (Call.replay from content) = err "reverted"
answer_of (Call.call_from from to input) = err "reverted"
answer_of (Call.simulate value tx) = ok []
answer_of (Call.get_tee_machine tee) = ok 31
answer_of Call.current_reward_epoch = ok (some 3)
answer_of (Call.latest_governance_hash extension) = ok 0
answer_of (Call.is_machine_owner extension owner) = ok false
answer_of (Call.is_project_owner extension owner) = ok true
answer_of (Call.is_key_type_supported extension type) = ok false
answer_of (Call.http_get url) = ok (record { status_code = 200; body = [] })
answer_of (Call.http_post url body) = ok (record { status_code = 200; body = [] })
answer_of (Call.sleep seconds) = ok tt
answer_of Call.read_file = ok tt
answer_of (Call.write_file content) = ok tt
answer_of Call.remove_file = ok tt
answer_of (Call.submit key value gas_limit tx) = ok 61
answer_of (Call.deploy_auction key extension_manager machine_manager) = ok (62, 61)
answer_of (Call.simulate_market key tx) = ok []
answer_of (Call.pending_nonce account) = ok 4
answer_of Call.suggest_gas_price = ok 650
answer_of (Call.view contract v) = ok (63 ∷ [])
answer_of (Call.call_contract contract input) = ok []
answer_of Call.head_time = ok 1000
answer_of Call.chain_id = ok 114
answer_of Call.generate_key = ok 72
answer_of Call.read_random = ok (8 ∷ [])
answer_of (Call.read_path path) = ok (6 ∷ [])
answer_of (Call.dial url) = ok tt
answer_of (Call.write_path path content) = ok tt
answer_of (Call.get_machine_status tee) = ok 2
answer_of (Call.get_active_machines extension) = ok (30 ∷ 31 ∷ 32 ∷ [])
answer_of (Call.get_machine_owner tee) = ok 71
answer_of (Call.is_version_supported extension code_hash platform) = ok false

abbrev pub outside : Outside
outside = record { answer = λ calls c. answer_of c; torn = λ old content. none; reverts = reverts }

abbrev pub resumed : World
resumed = record { journal = []; state_file = some (9 ∷ []) }

abbrev pub support : Support
support = record { prv = 71; chain_id = 114 }

abbrev pub client : Client
client = record {
  code_at = λ addr. ok (96 ∷ []);
  balance_at = λ addr. ok (pos 20000000000000000);
  chain_id = ok 114;
}

abbrev pub registry : Registry
registry = record {
  next_public_extension_id = ok 3;
  instructions_sender = λ id. ok id;
  is_key_type_supported = λ id type. ok true;
}

abbrev pub env_lines : List String
env_lines = "# written by pre-build" ∷ "EXTENSION_ID = 0x05 " ∷ "INSTRUCTION_SENDER=0xab" ∷ []

abbrev pub env : Env
env = record {
  getenv = λ name. "";
  lines_of = λ path. if str_eq path "extension.env" then some env_lines else none;
  not_exist = λ path. false;
  accepts = λ port. false;
  http_status = λ url. err "refused";
  quote = λ s. s;
  address_hex = λ addr. "0x01";
  hex_to_address = λ s. 2;
  evm_type = 51;
}

abbrev pub report : Report
report =
    result_of "deploy" "D3" "address not zero" pass "" ""
    ∷ result_of "services" "S5" "extension port not in use" warn "in use" "stop it"
    ∷ result_of "deploy" "D1" "has deployed code" fail "no code" ""
    ∷ []
