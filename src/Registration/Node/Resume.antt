-- ===== src/Registration/Node/Resume.antt =====
-- `RegisterNode` run again on the state file that an earlier run left
-- (tools/pkg/fccutils/registration.go).
use sealed_auction_fce.Prelude.{
  ◌≡◌, refl, sym, ap, ◌∙◌, false, inl, inr, String, Result, ok, err, Result-cases, Option-cases,
}
use sealed_auction_fce.Extension.Types.{Address, Hash, Bytes}
use sealed_auction_fce.Chain.{Call, Outside, World}
use sealed_auction_fce.Chain.Journal.{
  Added, Only, Added-none, andthen-Only, on_error-Only, wrap-Only, perform-Only, andthen-Added,
}
use sealed_auction_fce.Chain.Returned.{Returns, andthen-Returns}
use sealed_auction_fce.Registration.{
  Library, Support, TeeInfo, RegistrationState, contains, load_state, read_state,
}
use sealed_auction_fce.Registration.Allowed.{Allowed, saved_steps}
use sealed_auction_fce.Registration.Node.{
  step_r, step_attest, step_a, registration_steps, register_node,
}
use sealed_auction_fce.Registration.Node.Sends.{
  Extends, if_Due, fresh_pre_registration-Fine, fresh_attestation-Fine, fresh_check-Fine,
  skip_step-Fine, step_p-Fine, step_r-Extends, step_attest-Extends,
}

abbrev recorded : String → RegistrationState
recorded completed = record {
  completed_steps = completed;
  tee_attest_instruction_id = 0;
  instruction_id = 0;
}

abbrev completed_of : Result RegistrationState → String
completed_of (ok st) = st.completed_steps
completed_of (err t) = ""

module _ (lib : Library) (out : Outside) where
  read_state-Returns :
      (content : Bytes)
      → Returns (λ st. lib.unmarshal_state content ≡ ok st) (read_state lib out content)
  unfolding read_state
  read_state-Returns content = andthen-Returns _ _ _ (λ u w st.
      elim (Result-cases (lib.unmarshal_state content)) [
        | inl (found, e) ↦ rw e (λ h. h)
        | inr (t, e) ↦ rw e (λ h. absurd (cc h))
      ])

  -- The state that is loaded has the steps that the file records.
  load_state_saved :
      (w : World) (st : RegistrationState)
      → (load_state lib out w).0 ≡ ok st
      → st.completed_steps ≡ saved_steps lib w.state_file
  unfolding load_state saved_steps
  load_state_saved w st = elim (Option-cases w.state_file) [
    | inl absent ↦ rw (absent, load_state) (λ h. ap (λ r. completed_of r) (sym h))
    | inr (content, present) ↦
        rw (present, load_state)
          (λ h. sym (rw (read_state-Returns content w st h, saved_steps) refl))
  ]

  load_state-Only : (P : Call → Type 0) → P Call.read_file → Only P (load_state lib out)
  unfolding load_state read_state
  load_state-Only P p w = elim (Option-cases w.state_file) [
    | inl absent ↦ rw (absent, load_state) (Added-none P w)
    | inr (content, present) ↦
        rw (present, load_state)
          (andthen-Only P _ _ (wrap-Only P _ _ (perform-Only P out _ p)) (λ u v. Added-none P v) w)
  ]

  module _ (s : Support) (command completed : String) where
    step_r-Only :
        (host_url : String) (tee proxy : Address) (info : TeeInfo) (st : RegistrationState)
        → (contains st.completed_steps "r" ≡ false → contains completed "r" ≡ false)
        → Only (Allowed command completed) (step_r lib out s command host_url tee proxy info st)
    unfolding step_r
    step_r-Only host_url tee proxy info st back =
        if_Due command completed lib out s "r" st _ _ _ back
          (skip_step-Fine command completed lib out s st _)
          (fresh_pre_registration-Fine command completed lib out s host_url tee proxy info st)
          (Added-none _)

    step_attest-Only :
        (tee : Address) (st : RegistrationState) (attestation : Hash)
        → (contains st.completed_steps "R" ≡ false → contains completed "R" ≡ false)
        → Only (Allowed command completed) (step_attest lib out s command tee st attestation)
    unfolding step_attest
    step_attest-Only tee st attestation back =
        if_Due command completed lib out s "R" st _ _ _ back
          (skip_step-Fine command completed lib out s st _)
          (fresh_attestation-Fine command completed lib out s tee st) (Added-none _)

    step_a-Only :
        (url : String) (tee ftdc_tee : Address) (id_text : String) (st : RegistrationState)
        (attestation : Hash)
        → (contains st.completed_steps "a" ≡ false → contains completed "a" ≡ false)
        → Only
            (Allowed command completed)
            (step_a lib out s command url tee ftdc_tee id_text st attestation)
    unfolding step_a
    step_a-Only url tee ftdc_tee id_text st attestation back =
        if_Due command completed lib out s "a" st _ _ _ back
          (skip_step-Fine command completed lib out s st _)
          (fresh_check-Fine command completed lib out s url tee ftdc_tee attestation st)
          (Added-none _)

  module _ (s : Support) (w : World) (command : String) where
    abbrev pub Sent : World → World → Type 0
    Sent = Added (Allowed command (saved_steps lib w.state_file))

    rest-Sent :
        (info : TeeInfo) (host_url ftdc_tee_url : String) (ftdc_tee : Address) (id_text : String)
        (ids : Address × Address) (st : RegistrationState)
        → st.completed_steps ≡ saved_steps lib w.state_file
        → Only (Allowed command (saved_steps lib w.state_file)) (
            registration_steps lib out s info host_url ftdc_tee_url ftdc_tee command id_text ids st)
    unfolding registration_steps
    rest-Sent info host_url ftdc_tee_url ftdc_tee id_text (tee, proxy) st saved v =
        let completed = saved_steps lib w.state_file in
        let P = Allowed command completed in
        let keeps : Extends (recorded completed) st =
          (λ step h. ap (λ t. contains t step) (sym saved) ∙ h) in
        andthen-Added P _ _ v
          (step_r-Only s command completed host_url tee proxy info st (keeps "r") v)
          (λ (st_r, attestation) r.
            let keeps_r : Extends (recorded completed) st_r = (λ step h.
              keeps step
                (step_r-Extends lib out s command host_url tee proxy info st v _ r step h)) in
            andthen-Added P _ _ _
              (step_attest-Only s command completed tee st_r attestation (keeps_r "R") _)
              (λ (st_a, attestation') r'.
                let keeps_a : contains st_a.completed_steps "a" ≡ false
                    → contains completed "a" ≡ false =
                  (λ h.
                    keeps_r "a"
                      (step_attest-Extends lib out s command tee st_r attestation _ _ r' "a" h)) in
                andthen-Added P _ _ _
                  (step_a-Only s command completed ftdc_tee_url tee ftdc_tee id_text st_a
                    attestation' keeps_a _)
                  (λ (st_p, id) r''.
                    andthen-Added P _ _ _
                      (step_p-Fine command completed lib out s ftdc_tee_url id _)
                      (λ u done.
                        on_error-Only P _ _ _ (perform-Only P out _ tt) (λ e. Added-none P)
                          (λ u'. Added-none P) _))))

    -- A run of `RegisterNode` sends a transaction of a step only when the command asks for the step
    -- and the state file that it starts from does not record it, `ToProduction` only when the
    -- command has a "p", and no other transaction; this holds whatever the chain and the services
    -- answer, and also when the run stops with an error.
    pub register_node-Allowed :
        (info : TeeInfo) (host_url ftdc_tee_url : String) (ftdc_tee : Address) (id_text : String)
        → Sent w (register_node lib out s info host_url ftdc_tee_url ftdc_tee command id_text w).1
    unfolding register_node
    register_node-Allowed info host_url ftdc_tee_url ftdc_tee id_text =
        let P = Allowed command (saved_steps lib w.state_file) in
        andthen-Added P _ _ w (Added-none P w) (λ ids found.
          andthen-Added P _ _ w (load_state-Only P tt w) (λ st loaded.
            rest-Sent info host_url ftdc_tee_url ftdc_tee id_text ids st
              (load_state_saved w st loaded) _))
