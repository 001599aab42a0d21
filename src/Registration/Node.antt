-- ===== src/Registration/Node.antt =====
-- `RegisterNode` (tools/pkg/fccutils/registration.go), one definition for each block of it.
pub mod Sends
pub mod Resume
use Prim.Native.String.{◌++◌ as append}
use sealed_auction_fce.Prelude.{
  ℕ, Bool, true, false, ◌&&◌, Option, none, some, List, [], ◌∷◌, String, Result, ok, err, ◌==◌, not,
  if◌then◌else◌,
}
use sealed_auction_fce.Extension.Types.{Address, Hash, Bytes}
use sealed_auction_fce.Chain.{
  AvailabilityProof, Outside, Act, done, stop, lift, andthen, on_error, perform, get_tee_machine,
  remove_file, sleep, ◌>>=◌, ◌>>◌,
}
use sealed_auction_fce.Registration.{
  Library, Support, TeeInfo, RegistrationState, contains, tee_proxy_id, load_state, save_state, try,
}
use sealed_auction_fce.Registration.Policy.{check_ftdc_proxy_policy_consistency}
use sealed_auction_fce.Registration.Steps.{
  pre_registration, request_tee_attestation, request_ftdc_availability_check,
}
use sealed_auction_fce.Registration.Production.{
  get_ftdc_availability_check_result, to_production_step,
}

-- The state after the step "r" or "R", and after the step "a".
abbrev pub attested : String → Hash → RegistrationState → RegistrationState
attested step id state = record {
  completed_steps = append state.completed_steps step;
  tee_attest_instruction_id = id;
  instruction_id = state.instruction_id;
}

abbrev pub checked : Hash → RegistrationState → RegistrationState
checked id state = record {
  completed_steps = append state.completed_steps "a";
  tee_attest_instruction_id = state.tee_attest_instruction_id;
  instruction_id = id;
}

module _ (lib : Library) (out : Outside) (s : Support) where
  -- `PreRegistration`, its challenge dropped.
  unfoldable pub register_fresh : String → Address → TeeInfo → Act Hash
  register_fresh host_url proxy info = do
    pair ← pre_registration lib out s host_url proxy info
    done pair.1

  -- A machine that the chain already knows is not registered again.
  unfoldable pub register_or_attest : String → Address → Address → TeeInfo → Act Hash
  register_or_attest host_url tee proxy info =
      on_error (perform out (get_tee_machine tee)) (λ e. register_fresh host_url proxy info)
        (λ known.
          if known == 0
          then register_fresh host_url proxy info
          else request_tee_attestation lib out s tee)

  -- The end of a step: the state is saved, a failure to save is only logged, then a second's sleep.
  unfoldable pub finish_step : RegistrationState → Hash → Act (RegistrationState × Hash)
  finish_step state id =
      try lib out (save_state lib out state)
        (try lib out (perform out (sleep 1)) (done (state, id)))

  -- A step that the saved state has.
  unfoldable pub skip_step : RegistrationState → Hash → Act (RegistrationState × Hash)
  skip_step state id = try lib out (perform out (sleep 1)) (done (state, id))

  unfoldable pub fresh_pre_registration :
      String → Address → Address → TeeInfo → RegistrationState → Act (RegistrationState × Hash)
  fresh_pre_registration host_url tee proxy info state = do
    id ← register_or_attest host_url tee proxy info
    finish_step (attested "r" id state) id

  unfoldable pub fresh_attestation : Address → RegistrationState → Act (RegistrationState × Hash)
  fresh_attestation tee state = do
    id ← request_tee_attestation lib out s tee
    finish_step (attested "R" id state) id

  unfoldable pub fresh_check :
      String → Address → Address → Hash → RegistrationState → Act (RegistrationState × Hash)
  fresh_check ftdc_tee_url tee ftdc_tee attestation state = do
    check_ftdc_proxy_policy_consistency lib out ftdc_tee_url
    id ← request_ftdc_availability_check lib out s tee ftdc_tee attestation
    finish_step (checked id state) id

  -- The blocks of the steps "r", "R", "a" and "p". The hash is `teeAttestInstructionID` for the first
  -- two and `instructionID` for the others.
  unfoldable pub step_r :
      String
      → String
      → Address
      → Address
      → TeeInfo
      → RegistrationState
      → Act (RegistrationState × Hash)
  step_r command host_url tee proxy info state =
      if contains command "r"
      then if contains state.completed_steps "r"
        then skip_step state state.tee_attest_instruction_id
        else fresh_pre_registration host_url tee proxy info state
      else done (state, 0)

  unfoldable pub step_attest :
      String → Address → RegistrationState → Hash → Act (RegistrationState × Hash)
  step_attest command tee state attestation =
      if contains command "R"
      then if contains state.completed_steps "R"
        then skip_step state state.tee_attest_instruction_id
        else fresh_attestation tee state
      else done (state, attestation)

  unfoldable pub step_a :
      String
      → String
      → Address
      → Address
      → String
      → RegistrationState
      → Hash
      → Act (RegistrationState × Hash)
  step_a command ftdc_tee_url tee ftdc_tee id_text state attestation =
      if contains command "a"
      then if contains state.completed_steps "a"
        then skip_step state state.instruction_id
        else fresh_check ftdc_tee_url tee ftdc_tee attestation state
      else done (state, lib.hex_to_hash id_text)

  unfoldable pub produce : String → Hash → Act (Unit {0})
  produce ftdc_tee_url id = do
    proof ← get_ftdc_availability_check_result lib out ftdc_tee_url id
    to_production_step lib out s proof

  unfoldable pub step_p : String → String → Hash → Act (Unit {0})
  step_p command ftdc_tee_url id = if contains command "p" then produce ftdc_tee_url id else done tt

  -- The four blocks, and the removal of the state file, whose error is dropped.
  unfoldable pub registration_steps :
      TeeInfo
      → String
      → String
      → Address
      → String
      → String
      → Address × Address
      → RegistrationState
      → Act (Unit {0})
  registration_steps info host_url ftdc_tee_url ftdc_tee command id_text (tee, proxy) state = do
    (state_r, attestation) ← step_r command host_url tee proxy info state
    (state_attest, attestation') ← step_attest command tee state_r attestation
    (state_a, id) ← step_a command ftdc_tee_url tee ftdc_tee id_text state_attest attestation'
    step_p command ftdc_tee_url id
    try lib out (perform out remove_file) (done tt)

  -- `RegisterNode`.
  unfoldable pub register_node :
      TeeInfo → String → String → Address → String → String → Act (Unit {0})
  register_node info host_url ftdc_tee_url ftdc_tee command id_text = do
    ids ← lift (tee_proxy_id lib info)
    state ← load_state lib out
    registration_steps info host_url ftdc_tee_url ftdc_tee command id_text ids state
