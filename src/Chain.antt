-- ===== src/Chain.antt =====
-- What the tools ask of the chain and of the services (tools/pkg/support/support.go and the contract
-- bindings that tools/pkg/fccutils calls): the calls, their answers, and the order of the calls.
pub mod Market
pub mod Journal
pub mod Returned
pub mod Failed
use sealed_auction_fce.Prelude.{
  ℕ, Bool, true, false, Option, none, some, List, [], ◌∷◌, ◌++◌, String, Result, ok, err, map_err,
  sprintf, ◌==◌, if◌then◌else◌,
}
use sealed_auction_fce.Extension.Types.{Address, Hash, Bytes}
use sealed_auction_fce.Revert.{RevertLibrary, failing_text}
use sealed_auction_fce.Chain.Market.{MarketTx, View}

-- machinemanager.IMachineManagerTeeMachineData.
pub record MachineData : Type 0 where
  pub extension_id : ℕ
  pub initial_owner : Address
  pub code_hash : Hash
  pub platform : Hash
  pub public_key : ℕ × ℕ
  pub governance_hash : Hash

-- machinemanager.Signature.
pub record Signature : Type 0 where
  pub v : ℕ
  pub r : Bytes
  pub s : Bytes

-- The body and header of an availability check proof; the proof's other parts are sent as they were
-- received.
pub record AvailabilityProof : Type 0 where
  pub tee_id : Address
  pub content : Bytes

-- The transactions that the tools send.
pub data Tx : Type 0 where
  register_machine :
      MachineData → Signature → (proxy : Address) → (url : String) → (claim_back : Address) → Tx
  request_attestation : (tee claim_back : Address) → Tx
  request_availability_check :
      (tee : Address) → (attestation : Hash) → (external proof_owner claim_back : Address) → Tx
  to_production : AvailabilityProof → Tx
  add_tee_version :
      (extension : ℕ) → (version : Bytes) → (code_hash : Hash) → (platforms : List Hash) → Tx
  set_governance : (extension : ℕ) → (signers : List Address) → (threshold : ℕ) → Tx
  register_extension : (state_verifier sender : Address) → Tx
  allow_machine_owners : (extension : ℕ) → (owners : List Address) → Tx
  allow_project_owners : (extension : ℕ) → (owners : List Address) → Tx
  add_key_types : (extension : ℕ) → (types : List Hash) → Tx
  pause_machine : (tee : Address) → Tx

-- One call. `send` and `submit` carry the key that signs and the value that is paid, `submit` also the
-- gas limit, with 0 for an estimate, and its answer is the hash of the signed transaction.
pub data Call : Type 0 where
  send : (key value : ℕ) → Tx → Call
  wait_mined : (tx : Hash) → Call
  transaction_by_hash : (tx : Hash) → Call
  replay : (from : Address) → (content : Bytes) → Call
  call_from : (from to : Address) → (input : Bytes) → Call
  simulate : (value : ℕ) → Tx → Call
  get_tee_machine : Address → Call
  current_reward_epoch : Call
  latest_governance_hash : (extension : ℕ) → Call
  is_machine_owner : (extension : ℕ) → Address → Call
  is_project_owner : (extension : ℕ) → Address → Call
  is_key_type_supported : (extension : ℕ) → Hash → Call
  http_get : (url : String) → Call
  http_post : (url : String) → (body : Bytes) → Call
  sleep : (seconds : ℕ) → Call
  read_file : Call
  write_file : Bytes → Call
  remove_file : Call
  submit : (key value gas_limit : ℕ) → MarketTx → Call
  deploy_auction : (key : ℕ) → (extension_manager machine_manager : Address) → Call
  simulate_market : (key : ℕ) → MarketTx → Call
  pending_nonce : Address → Call
  suggest_gas_price : Call
  view : (contract : Address) → View → Call
  call_contract : (contract : Address) → (input : Bytes) → Call
  head_time : Call
  chain_id : Call
  generate_key : Call
  read_random : Call
  read_path : (path : String) → Call
  dial : (url : String) → Call
  write_path : (path content : String) → Call
  get_machine_status : (tee : Address) → Call
  get_active_machines : (extension : ℕ) → Call
  get_machine_owner : (tee : Address) → Call
  is_version_supported : (extension : ℕ) → (code_hash platform : Hash) → Call

-- types.Log.
pub record Log : Type 0 where
  pub topics : List Hash
  pub content : Bytes

-- types.Receipt.
pub record Receipt : Type 0 where
  pub status : ℕ
  pub tx_hash : Hash
  pub logs : List Log

-- types.Transaction: what types.Sender recovers from it, and the recipient, gas, price, value and
-- data that an eth_call repeats.
pub record Transaction : Type 0 where
  pub sender : Result Address
  pub content : Bytes

-- The HTTP response to a request.
pub record HttpReply : Type 0 where
  pub status_code : ℕ
  pub body : Bytes

-- What a call answers with when it does not fail.
abbrev pub Answer : Call → Type 0
Answer (send key value tx) = Hash
Answer (wait_mined tx) = Receipt
Answer (transaction_by_hash tx) = Transaction
Answer (replay from content) = Bytes
Answer (call_from from to input) = Bytes
Answer (simulate value tx) = Bytes
Answer (get_tee_machine tee) = Address
Answer current_reward_epoch = Option ℕ
Answer (latest_governance_hash extension) = Hash
Answer (is_machine_owner extension owner) = Bool
Answer (is_project_owner extension owner) = Bool
Answer (is_key_type_supported extension type) = Bool
Answer (http_get url) = HttpReply
Answer (http_post url body) = HttpReply
Answer (sleep seconds) = Unit
Answer read_file = Unit
Answer (write_file content) = Unit
Answer remove_file = Unit
Answer (submit key value gas_limit tx) = Hash
Answer (deploy_auction key extension_manager machine_manager) = Address × Hash
Answer (simulate_market key tx) = Bytes
Answer (pending_nonce account) = ℕ
Answer suggest_gas_price = ℕ
Answer (view contract v) = List ℕ
Answer (call_contract contract input) = Bytes
Answer head_time = ℕ
Answer chain_id = ℕ
Answer generate_key = ℕ
Answer read_random = Bytes
Answer (read_path path) = Bytes
Answer (dial url) = Unit
Answer (write_path path content) = Unit
Answer (get_machine_status tee) = ℕ
Answer (get_active_machines extension) = List Address
Answer (get_machine_owner tee) = Address
Answer (is_version_supported extension code_hash platform) = Bool

-- The outside: it answers each call, or fails it, by the calls that came before. A failed write
-- leaves `torn old content` in the file. `reverts` decodes revert data.
pub record Outside : Type 1 where
  pub answer : List Call → (c : Call) → Result (Answer c)
  pub torn : Option Bytes → Bytes → Option Bytes
  pub reverts : RevertLibrary

-- The calls made so far, and the content of the registration's state file.
pub record World : Type 0 where
  pub journal : List Call
  pub state_file : Option Bytes

-- Code that makes calls and returns a value or an error.
abbrev pub Act {ℓ} : Type ℓ → Type ℓ
Act A = World → Result A × World

abbrev pub done {ℓ} : {A : Type ℓ} → A → Act A
done a w = (ok a, w)

abbrev pub stop {ℓ} : {A : Type ℓ} → String → Act A
stop e w = (err e, w)

abbrev pub lift {ℓ} : {A : Type ℓ} → Result A → Act A
lift r w = (r, w)

unfoldable pub andthen {ℓ κ} : {A : Type ℓ} {B : Type κ} → Act A → (A → Act B) → Act B
andthen m f w = (let (r, w') = m w in elim r [ ok a ↦ f a w' | err e ↦ (err e, w') ])

-- `if err != nil` with another way to go on than to return.
unfoldable pub on_error {ℓ κ} :
    {A : Type ℓ} {B : Type κ} → Act A → (String → Act B) → (A → Act B) → Act B
on_error m g f w = (let (r, w') = m w in elim r [ ok a ↦ f a w' | err e ↦ g e w' ])

infixl 5 ◌>>=◌ ◌>>◌
abbrev pub ◌>>=◌ {ℓ κ} : {A : Type ℓ} {B : Type κ} → Act A → (A → Act B) → Act B
m >>= f = andthen m f

abbrev pub ◌>>◌ {ℓ} : {B : Type ℓ} → Act (Unit {0}) → Act B → Act B
m >> k = andthen m (λ u. k)

-- `if err != nil { return errors.Errorf(format, err) }` after a call.
unfoldable pub wrap {ℓ} : {A : Type ℓ} → (String → String) → Act A → Act A
wrap f m w = (let (r, w') = m w in (map_err f r, w'))

module _ (out : Outside) where
  -- The file after a call that was answered or failed.
  unfoldable pub file_after : (c : Call) → Result (Answer c) → Option Bytes → Option Bytes
  file_after (write_file content) (ok u) old = some content
  file_after (write_file content) (err e) old = out.torn old content
  file_after remove_file (ok u) old = none
  file_after c r old = old

  unfoldable pub perform : (c : Call) → Act (Answer c)
  unfolding file_after
  perform c w =
      let r = out.answer w.journal c in
      (r, record { journal = w.journal ++ c ∷ []; state_file = file_after c r w.state_file })

  -- `getFailingMessage`.
  unfoldable pub get_failing_message : Hash → Act String
  get_failing_message tx = do
    t ← perform (transaction_by_hash tx)
    from ← lift t.sender
    on_error (perform (replay from t.content)) (λ e. done (failing_text out.reverts (err e)))
        (λ res. done (failing_text out.reverts (ok res)))

  unfoldable pub tx_failed : Hash → Act Receipt
  tx_failed tx = do
    reason ← get_failing_message tx
    stop (sprintf ("error: Transaction fail: " ∷ reason ∷ []))

  -- `CheckTx`; its text for a transaction that is not mined also has the hash.
  unfoldable pub check_tx : Hash → Act Receipt
  check_tx tx = do
    receipt ←
        wrap (λ e. sprintf ("transaction not mined within 2 minutes: " ∷ e ∷ []))
          (perform (wait_mined tx))
    if receipt.status == 0 then tx_failed tx else done receipt
