-- ===== src/Registration/Node/Sends.antt =====
-- The transactions of one run of `RegisterNode` (tools/pkg/fccutils/registration.go).

use sealed_auction_fce.Prelude.{
  ◌≡◌, true, false, inl, inr, String, Bool-cases, if◌then◌else◌, arith,
}
use sealed_auction_fce.Extension.Types.{Address, Hash}
use sealed_auction_fce.Chain.{Call, Outside, World, Act, perform}
use sealed_auction_fce.Chain.Journal.{
  Added, Only, Added-none, andthen-Only, on_error-Only, if-Only, wrap-Only, perform-Only,
  check_tx-Only,
}
use sealed_auction_fce.Chain.Returned.{
  Returns, done-Returns, if-Returns, andthen-Returns, on_error-Returns,
}
use sealed_auction_fce.Registration.{
  Library, Support, TeeInfo, RegistrationState, contains, save_state,
}
use sealed_auction_fce.Registration.Production.{to_production_step}
use sealed_auction_fce.Registration.Allowed.{
  Due, Allowed, contains-append, request_tee_attestation-Fine, request_ftdc_availability_check-Fine,
  pre_registration-Fine, check_ftdc_proxy_policy_consistency-Fine,
  get_ftdc_availability_check_result-Fine, tries,
}
use sealed_auction_fce.Registration.Node.{
  attested, register_fresh, register_or_attest, finish_step, skip_step, fresh_pre_registration,
  fresh_attestation, fresh_check, step_r, step_attest, produce, step_p,
}

-- The second state has the completed steps of the first.
abbrev pub Extends : RegistrationState → RegistrationState → Type 0
Extends st st' =
    (step : String)
    → contains st'.completed_steps step ≡ false
    → contains st.completed_steps step ≡ false

attested-Extends :
    (step : String) (id : Hash) (st : RegistrationState) → Extends st (attested step id st)
attested-Extends step id st other h =
    ground (arith, h, contains-append st.completed_steps step other)

module _ (command completed : String) (lib : Library) (out : Outside) (s : Support) where
  abbrev Fine : {A : Type 0} → Act A → Type 0
  Fine m = Only (Allowed command completed) m

  nothing : (w : World) → Added (Allowed command completed) w w
  nothing w = Added-none (Allowed command completed) w

  pub calls : (c : Call) → Allowed command completed c → Fine (perform out c)
  calls c p = perform-Only (Allowed command completed) out c p

  saves : (st : RegistrationState) → Fine (save_state lib out st)
  unfolding save_state
  saves st = andthen-Only _ _ _ nothing (λ content. wrap-Only _ _ _ (calls _ tt))

  finish_step-Fine : (st : RegistrationState) (id : Hash) → Fine (finish_step lib out s st id)
  unfolding finish_step
  finish_step-Fine st id =
      tries command completed lib out s _ _ (saves st)
        (tries command completed lib out s _ _ (calls _ tt) nothing)

  pub skip_step-Fine : (st : RegistrationState) (id : Hash) → Fine (skip_step lib out s st id)
  unfolding skip_step
  skip_step-Fine st id = tries command completed lib out s _ _ (calls _ tt) nothing

  register_fresh-Fine :
      (host_url : String) (proxy : Address) (info : TeeInfo)
      → Due command completed "r"
      → Fine (register_fresh lib out s host_url proxy info)
  unfolding register_fresh
  register_fresh-Fine host_url proxy info due =
      andthen-Only _ _ _ (pre_registration-Fine command completed lib out s host_url proxy info due)
        (λ pair. nothing)

  pub fresh_pre_registration-Fine :
      (host_url : String) (tee proxy : Address) (info : TeeInfo) (st : RegistrationState)
      → Due command completed "r"
      → Fine (fresh_pre_registration lib out s host_url tee proxy info st)
  unfolding fresh_pre_registration register_or_attest
  fresh_pre_registration-Fine host_url tee proxy info st due =
      andthen-Only _ _ _
        (on_error-Only _ _ _ _ (calls _ tt) (λ e. register_fresh-Fine host_url proxy info due)
          (λ known.
            if-Only _ _ _ _ (register_fresh-Fine host_url proxy info due)
              (request_tee_attestation-Fine command completed lib out s tee (inl due))))
        (λ id. finish_step-Fine _ id)

  pub fresh_attestation-Fine :
      (tee : Address) (st : RegistrationState)
      → Due command completed "R"
      → Fine (fresh_attestation lib out s tee st)
  unfolding fresh_attestation
  fresh_attestation-Fine tee st due =
      andthen-Only _ _ _ (request_tee_attestation-Fine command completed lib out s tee (inr due))
        (λ id. finish_step-Fine _ id)

  pub fresh_check-Fine :
      (url : String) (tee ftdc_tee : Address) (attestation : Hash) (st : RegistrationState)
      → Due command completed "a"
      → Fine (fresh_check lib out s url tee ftdc_tee attestation st)
  unfolding fresh_check
  fresh_check-Fine url tee ftdc_tee attestation st due =
      andthen-Only _ _ _ (check_ftdc_proxy_policy_consistency-Fine command completed lib out s url)
        (λ u.
          andthen-Only _ _ _
            (request_ftdc_availability_check-Fine command completed lib out s tee ftdc_tee
              attestation due)
            (λ id. finish_step-Fine _ id))

  -- A step's block does what it does only when the command asks for it and the state lacks it.
  pub if_Due :
      {A : Type 0} (step : String) (st : RegistrationState) (skip fresh other : Act A)
      → (contains st.completed_steps step ≡ false → contains completed step ≡ false)
      → Fine skip
      → (Due command completed step → Fine fresh)
      → Fine other
      → Fine (
          if contains command step
          then if contains st.completed_steps step then skip else fresh
          else other)
  if_Due step st skip fresh other back h k l = elim (Bool-cases (contains command step)) [
    | inr unasked ↦ rw unasked l
    | inl asked ↦ elim (Bool-cases (contains st.completed_steps step)) [
      | inl has ↦ rw (asked, has) h
      | inr lacks ↦ rw (asked, lacks) (k (asked, back lacks))
    ]
  ]

  produce-Fine :
      (url : String) (id : Hash) → contains command "p" ≡ true → Fine (produce lib out s url id)
  unfolding produce to_production_step
  produce-Fine url id asked =
      andthen-Only _ _ _
        (get_ftdc_availability_check_result-Fine command completed lib out s url id)
        (λ proof. andthen-Only _ _ _ nothing (λ u. andthen-Only _ _ _ (calls _ asked) (λ hash.
          andthen-Only _ _ _
            (check_tx-Only (Allowed command completed) out hash tt tt (λ from content. tt))
            (λ receipt. andthen-Only _ _ _ (calls _ tt) (λ tee. nothing)))))

  pub step_p-Fine : (url : String) (id : Hash) → Fine (step_p lib out s command url id)
  unfolding step_p
  step_p-Fine url id = elim (Bool-cases (contains command "p")) [
    | inl asked ↦ rw (asked, step_p) (produce-Fine url id asked)
    | inr unasked ↦ rw (unasked, step_p) nothing
  ]

module _ (lib : Library) (out : Outside) (s : Support) where
  finish_step-Extends :
      (st st' : RegistrationState) (id : Hash)
      → Extends st st'
      → Returns
          (λ (pair : RegistrationState × Hash). Extends st pair.0)
          (finish_step lib out s st' id)
  unfolding finish_step
  finish_step-Extends st st' id h =
      let ends = on_error-Returns _ _ _ _ (λ t. done-Returns _ _ h) (λ u. done-Returns _ _ h) in
      on_error-Returns _ _ _ _ (λ t. ends) (λ u. ends)

  skip_step-Extends :
      (st : RegistrationState) (id : Hash)
      → Returns (λ (pair : RegistrationState × Hash). Extends st pair.0) (skip_step lib out s st id)
  unfolding skip_step
  skip_step-Extends st id =
      on_error-Returns _ _ _ _ (λ t. done-Returns _ _ (λ x h. h)) (λ u. done-Returns _ _ (λ x h. h))

  pub step_r-Extends :
      (command host_url : String) (tee proxy : Address) (info : TeeInfo) (st : RegistrationState)
      → Returns
          (λ (pair : RegistrationState × Hash). Extends st pair.0)
          (step_r lib out s command host_url tee proxy info st)
  unfolding step_r fresh_pre_registration
  step_r-Extends command host_url tee proxy info st =
      if-Returns _ _ _ _
        (if-Returns _ _ _ _ (skip_step-Extends st _)
          (andthen-Returns _ _ _ (λ id. finish_step-Extends st _ id (attested-Extends "r" id st))))
        (done-Returns _ _ (λ x h. h))

  pub step_attest-Extends :
      (command : String) (tee : Address) (st : RegistrationState) (attestation : Hash)
      → Returns
          (λ (pair : RegistrationState × Hash). Extends st pair.0)
          (step_attest lib out s command tee st attestation)
  unfolding step_attest fresh_attestation
  step_attest-Extends command tee st attestation =
      if-Returns _ _ _ _
        (if-Returns _ _ _ _ (skip_step-Extends st _)
          (andthen-Returns _ _ _ (λ id. finish_step-Extends st _ id (attested-Extends "R" id st))))
        (done-Returns _ _ (λ x h. h))
