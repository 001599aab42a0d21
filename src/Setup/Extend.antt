-- ===== src/Setup/Extend.antt =====
-- What `SetupExtension` sends (tools/pkg/fccutils/extension.go).
use sealed_auction_fce.Prelude.{ℕ, ◌≡◌, refl, [], ◌∷◌}
use sealed_auction_fce.Extension.Types.{Address}
use sealed_auction_fce.Chain.{Call, Tx, Outside}
use sealed_auction_fce.Chain.Journal.{
  Only, Added-none, andthen-Only, if-Only, wrap-Only, perform-Only, check_tx-Only,
}
use sealed_auction_fce.Registration.{Library, Support}
use sealed_auction_fce.Setup.{
  register_new_extension, allow_tee_machine_owners, allow_tee_project_manager_owners,
  add_supported_key_types, ensure_machine_owner, ensure_project_owner, ensure_key_type,
  setup_extension,
}

-- The transactions that a set-up may send: the registration of the given contracts, and the
-- permissions of the deployer and the EVM key type, which name the deployer and that type alone.
abbrev pub Deploys : Library → Address → Address → Address → Call → Type 0
Deploys lib deployer sender verifier (Call.send signer value (Tx.register_extension v t)) =
    (v ≡ verifier) × (t ≡ sender)
Deploys lib deployer sender verifier (Call.send signer value (Tx.allow_machine_owners id owners)) =
    owners ≡ deployer ∷ []
Deploys lib deployer sender verifier (Call.send signer value (Tx.allow_project_owners id owners)) =
    owners ≡ deployer ∷ []
Deploys lib deployer sender verifier (Call.send signer value (Tx.add_key_types id types)) =
    types ≡ lib.evm_type ∷ []
Deploys lib deployer sender verifier (Call.send signer value tx) = ⊥
Deploys lib deployer sender verifier (Call.submit key value gas_limit tx) = ⊥
Deploys lib deployer sender verifier (Call.deploy_auction key extensions machines) = ⊥
Deploys lib deployer sender verifier _ = Unit

module _ (lib : Library) (out : Outside) (s : Support) (sender verifier : Address) where
  abbrev deployer : Address
  deployer = lib.key_address s.prv

  abbrev P : Call → Type 0
  P = Deploys lib deployer sender verifier

  ensure_machine_owner-Deploys : (id : ℕ) → Only P (ensure_machine_owner lib out s id deployer)
  unfolding ensure_machine_owner allow_tee_machine_owners
  ensure_machine_owner-Deploys id =
      andthen-Only P _ _ (wrap-Only P _ _ (perform-Only P out _ tt)) (λ already.
        if-Only P _ _ _ (Added-none P) (
          wrap-Only P _ _ (
            andthen-Only P _ _ (wrap-Only P _ _ (perform-Only P out _ refl)) (λ hash.
              andthen-Only P _ _
                (wrap-Only P _ _ (check_tx-Only P out hash tt tt (λ from content. tt)))
                (λ receipt. Added-none P)))))

  ensure_project_owner-Deploys : (id : ℕ) → Only P (ensure_project_owner lib out s id deployer)
  unfolding ensure_project_owner allow_tee_project_manager_owners
  ensure_project_owner-Deploys id =
      andthen-Only P _ _ (wrap-Only P _ _ (perform-Only P out _ tt)) (λ already.
        if-Only P _ _ _ (Added-none P) (
          wrap-Only P _ _ (
            andthen-Only P _ _ (wrap-Only P _ _ (perform-Only P out _ refl)) (λ hash.
              andthen-Only P _ _
                (wrap-Only P _ _ (check_tx-Only P out hash tt tt (λ from content. tt)))
                (λ receipt. Added-none P)))))

  ensure_key_type-Deploys : (id : ℕ) → Only P (ensure_key_type lib out s id)
  unfolding ensure_key_type add_supported_key_types
  ensure_key_type-Deploys id = andthen-Only P _ _ (perform-Only P out _ tt) (λ supported.
      if-Only P _ _ _ (Added-none P) (
        andthen-Only P _ _ (Added-none P) (λ u.
          andthen-Only P _ _ (perform-Only P out _ refl) (λ hash.
            andthen-Only P _ _ (check_tx-Only P out hash tt tt (λ from content. tt))
              (λ receipt. Added-none P)))))

  register_new_extension-Deploys : Only P (register_new_extension lib out s sender verifier)
  unfolding register_new_extension
  register_new_extension-Deploys =
      andthen-Only P _ _ (wrap-Only P _ _ (perform-Only P out _ (refl, refl))) (λ hash.
        andthen-Only P _ _ (wrap-Only P _ _ (check_tx-Only P out hash tt tt (λ from content. tt)))
          (λ receipt. Added-none P))

  -- Whatever the chain answers, `SetupExtension` sends no transaction but the registration of the
  -- given contracts, the permissions of the deployer alone, and the EVM key type alone.
  pub setup_extension-Deploys : Only P (setup_extension lib out s sender verifier)
  unfolding setup_extension
  setup_extension-Deploys = andthen-Only P _ _ (Added-none P) (λ u.
      andthen-Only P _ _ register_new_extension-Deploys (λ id.
        andthen-Only P _ _ (ensure_machine_owner-Deploys id) (λ u1.
          andthen-Only P _ _ (ensure_project_owner-Deploys id)
            (λ u2. andthen-Only P _ _ (ensure_key_type-Deploys id) (λ u3. Added-none P)))))
