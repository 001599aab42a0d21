-- ===== src/Registration/Allowed.antt =====
-- The calls of each step of a registration (tools/pkg/fccutils/registration.go).
use Prim.Native.String.{◌++◌ as append}
use text.Mathlib.TextLemmas.{nil-append, cons-append}
use sealed_auction_fce.Prelude.{
  ℕ, ◌≡◌, ap, ◌∙◌, true, false, ◌||◌, ◌⊎◌, inl, inr, Option, none, some, String, Result, ok, err,
  Result-cases, arith,
}
use sealed_auction_fce.Extension.Types.{Address, Hash, Bytes}
use sealed_auction_fce.Chain.{Call, Tx, Outside, World, Act, perform, check_tx, HttpReply}
use sealed_auction_fce.Chain.Journal.{
  Added, Only, Added-none, andthen-Only, on_error-Only, if-Only, wrap-Only, perform-Only,
  check_tx-Only,
}
use sealed_auction_fce.Registration.{Library, Support, TeeInfo, contains, try, tee_info}
use sealed_auction_fce.Registration.Policy.{
  check_ftdc_proxy_policy_consistency, compare_policies, policy_verdict,
}
use sealed_auction_fce.Registration.Steps.{
  pre_registration, request_tee_attestation, request_ftdc_availability_check, send_register,
  register_failed,
}
use sealed_auction_fce.Registration.Diagnose.{diagnose}
use sealed_auction_fce.Registration.Production.{
  poll, action_result, get_ftdc_availability_check_result,
}

-- The step was asked for and the saved state does not have it.
abbrev pub Due : String → String → String → Type 0
Due command completed step = (contains command step ≡ true) × (contains completed step ≡ false)

-- The calls that a run may make, by the command and the steps of the saved state.
abbrev pub Allowed : String → String → Call → Type 0
Allowed command completed (Call.send signer value (Tx.register_machine m sig proxy url owner)) =
    Due command completed "r"
Allowed command completed (Call.send signer value (Tx.request_attestation tee owner)) =
    Due command completed "r" ⊎ Due command completed "R"
Allowed command completed
      (Call.send signer value (Tx.request_availability_check tee id external owner back)) =
    Due command completed "a"
Allowed command completed (Call.send signer value (Tx.to_production proof)) =
    contains command "p" ≡ true
Allowed command completed (Call.send signer value (Tx.add_tee_version id v hash platforms)) = ⊥
Allowed command completed (Call.send signer value (Tx.set_governance id signers n)) = ⊥
Allowed command completed (Call.send signer value (Tx.register_extension verifier sender)) = ⊥
Allowed command completed (Call.send signer value (Tx.allow_machine_owners id owners)) = ⊥
Allowed command completed (Call.send signer value (Tx.allow_project_owners id owners)) = ⊥
Allowed command completed (Call.send signer value (Tx.add_key_types id types)) = ⊥
Allowed command completed (Call.send signer value (Tx.pause_machine tee)) = ⊥
Allowed command completed (Call.submit key value gas_limit tx) = ⊥
Allowed command completed (Call.deploy_auction key extensions machines) = ⊥
Allowed command completed _ = Unit

-- The steps that the state file records.
unfoldable pub saved_steps : Library → Option Bytes → String
saved_steps lib none = ""
saved_steps lib (some content) = elim (lib.unmarshal_state content) [
  | ok state ↦ state.completed_steps
  | err e ↦ ""
]

pub contains-append :
    (s t step : String) → contains (append s t) step ≡ (contains s step || contains t step)
unfolding contains
contains-append String.[] t step = ap (λ u. contains u step) (nil-append t)
contains-append (String.◌∷◌ c s) t step =
    ap (λ u. contains u step) (cons-append c s t) ∙ ground (arith, contains-append s t step)

module _ (command completed : String) (lib : Library) (out : Outside) (s : Support) where
  abbrev Fine : {A : Type 0} → Act A → Type 0
  Fine m = Only (Allowed command completed) m

  abbrev Kept : World → World → Type 0
  Kept w w' = Added (Allowed command completed) w w'

  nothing : (w : World) → Kept w w
  nothing w = Added-none (Allowed command completed) w

  calls : (c : Call) → Allowed command completed c → Fine (perform out c)
  calls c p = perform-Only (Allowed command completed) out c p

  checks : (tx : Hash) → Fine (check_tx out tx)
  checks tx = check_tx-Only (Allowed command completed) out tx tt tt (λ from content. tt)

  pub tries :
      {A : Type 0} (m : Act (Unit {0})) (next : Act A)
      → Fine m
      → Fine next
      → Fine (try lib out m next)
  tries m next h k = on_error-Only _ m _ _ h (λ e. k) (λ u. k)

  pub request_tee_attestation-Fine :
      (tee : Address)
      → Due command completed "r" ⊎ Due command completed "R"
      → Fine (request_tee_attestation lib out s tee)
  unfolding request_tee_attestation
  request_tee_attestation-Fine tee due = andthen-Only _ _ _ nothing (λ u.
      andthen-Only _ _ _ (wrap-Only _ _ _ (calls _ due))
        (λ hash. andthen-Only _ _ _ (checks hash) (λ receipt. nothing)))

  diagnose-Fine : (value : ℕ) (tx : Tx) → Fine (diagnose lib out value tx)
  unfolding diagnose
  diagnose-Fine value tx = elim (Result-cases lib.diagnosis.verification_abi) [
    | inr (t, h) ↦ rw (h, diagnose) nothing
    | inl (u, h) ↦ elim (Result-cases (lib.pack_register tx)) [
      | inr (t, k) ↦ rw (h, diagnose, k) nothing
      | inl (calldata, k) ↦
          rw (h, diagnose, k)
            (on_error-Only _ _ _ _ (calls _ tt) (λ t. nothing) (λ result. nothing))
    ]
  ]

  pub request_ftdc_availability_check-Fine :
      (tee external : Address) (attestation : Hash)
      → Due command completed "a"
      → Fine (request_ftdc_availability_check lib out s tee external attestation)
  unfolding request_ftdc_availability_check
  request_ftdc_availability_check-Fine tee external attestation due =
      andthen-Only _ _ _ nothing (λ u.
        andthen-Only _ _ _
          (on_error-Only _ _ _ _ (calls _ due)
            (λ e. andthen-Only _ _ _ (diagnose-Fine _ _) (λ line. nothing)) (λ hash. nothing))
          (λ hash. andthen-Only _ _ _ (checks hash) (λ receipt. nothing)))

  register_failed-Fine : (tx : Tx) (e : String) → Fine (register_failed lib out s tx e)
  unfolding register_failed
  register_failed-Fine tx e = elim (Result-cases lib.register_abi) [
    | inr (t, h) ↦ rw (h, register_failed) nothing
    | inl (errors, h) ↦ elim (Result-cases (lib.pack_register tx)) [
      | inr (t, k) ↦ rw (h, register_failed, k) nothing
      | inl (calldata, k) ↦
          rw (h, register_failed, k)
            (on_error-Only _ _ _ _ (calls _ tt) (λ t. nothing) (λ result. nothing))
    ]
  ]

  pub pre_registration-Fine :
      (host_url : String) (proxy : Address) (info : TeeInfo)
      → Due command completed "r"
      → Fine (pre_registration lib out s host_url proxy info)
  unfolding pre_registration send_register
  pre_registration-Fine host_url proxy info due = andthen-Only _ _ _ nothing (λ u.
      andthen-Only _ _ _ nothing (λ u'. andthen-Only _ _ _ nothing (λ vrs.
        andthen-Only _ _ _ nothing (λ signature.
          andthen-Only _ _ _
            (on_error-Only _ _ _ _ (calls _ due) (λ e. register_failed-Fine _ e) (λ hash. nothing))
            (λ hash. andthen-Only _ _ _ (checks hash) (λ receipt. nothing))))))

  compare_policies-Fine :
      (url : String) (onchain : Option ℕ) → Fine (compare_policies lib out url onchain)
  unfolding compare_policies policy_verdict tee_info
  compare_policies-Fine url none = nothing
  compare_policies-Fine url (some onchain) =
      on_error-Only _ _ _ _ (andthen-Only _ _ _ (calls _ tt) (λ reply. nothing)) (λ e. nothing)
        (λ info. if-Only _ _ _ _ nothing nothing)

  pub check_ftdc_proxy_policy_consistency-Fine :
      (url : String) → Fine (check_ftdc_proxy_policy_consistency lib out url)
  unfolding check_ftdc_proxy_policy_consistency
  check_ftdc_proxy_policy_consistency-Fine url =
      on_error-Only _ _ _ _ (calls _ tt) (λ e. nothing)
        (λ onchain. compare_policies-Fine url onchain)

  pub poll-Fine : (n : ℕ) (url : String) (last : Result HttpReply) → Fine (poll lib out n url last)
  unfolding poll
  poll-Fine ℕ.zero url last = nothing
  poll-Fine (ℕ.suc n) url last =
      on_error-Only _ _ _ _ (calls _ tt) (λ e. tries _ _ (calls _ tt) (poll-Fine n url (err e)))
        (λ reply. if-Only _ _ _ _ nothing (tries _ _ (calls _ tt) (poll-Fine n url (ok reply))))

  pub get_ftdc_availability_check_result-Fine :
      (url : String) (id : Hash) → Fine (get_ftdc_availability_check_result lib out url id)
  unfolding get_ftdc_availability_check_result action_result
  get_ftdc_availability_check_result-Fine url id =
      andthen-Only _ _ _ (andthen-Only _ _ _ (poll-Fine _ _ _) (λ last. nothing)) (λ body. nothing)
