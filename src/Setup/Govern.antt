-- ===== src/Setup/Govern.antt =====
-- What `SetTeeGovernance` sends, and when it sends nothing (tools/pkg/fccutils/governance.go).
use sealed_auction_fce.Prelude.{
  if◌then◌else◌, ok_injective, sym, ◌∙◌, Bool-cases, Result-cases, inl, inr, false, ℕ, ◌≡◌, ◌≤◌,
  refl, ◌||◌, List, [], ◌∷◌, String, ok, length, ltb, ◌==◌, fail_if, arith,
}
use sealed_auction_fce.Extension.Types.{Address, Hash}
use sealed_auction_fce.Chain.{
  Call, Tx, Act, done, Outside, World, on_error, perform, latest_governance_hash,
}
use sealed_auction_fce.Chain.Journal.{
  Added, Added-weaken, Only, Added-none, andthen-Only, andthen-Added, on_error-Only, if-Only,
  wrap-Only, perform-Only, check_tx-Only,
}
use sealed_auction_fce.Chain.Returned.{map_err_ok}
use sealed_auction_fce.Registration.{Library, Support}
use sealed_auction_fce.Setup.{set_tee_governance, send_governance}

-- The only transaction is the setting of these signers and this threshold, signed by the key, and the
-- threshold is between 1 and their number.
abbrev pub Governs : ℕ → ℕ → List Address → ℕ → Call → Type 0
Governs key id signers threshold (Call.send signer value tx) =
    (signer ≡ key)
    × (tx ≡ Tx.set_governance id signers threshold)
    × (1 ≤ threshold)
    × (threshold ≤ length signers)
Governs key id signers threshold (Call.submit k value gas_limit tx) = ⊥
Governs key id signers threshold (Call.deploy_auction k extensions machines) = ⊥
Governs key id signers threshold _ = Unit

module _ (lib : Library) (out : Outside) (s : Support) (prv id : ℕ) (signers : List Address)
    (threshold : ℕ) where
  abbrev P : Call → Type 0
  P = Governs prv id signers threshold

  send_governance-Governs :
      1 ≤ threshold
      → threshold ≤ length signers
      → Only P (send_governance lib out s prv id signers threshold)
  unfolding send_governance
  send_governance-Governs low high = andthen-Only P _ _ (Added-none P) (λ u.
      andthen-Only P _ _ (wrap-Only P _ _ (perform-Only P out _ (refl, refl, low, high))) (λ hash.
        andthen-Only P _ _ (check_tx-Only P out hash tt tt (λ from content. tt))
          (λ receipt. Added-none P)))

  threshold_bounds :
      (text : String)
      → fail_if (threshold == 0 || ltb (length signers) threshold) text ≡ ok tt
      → (1 ≤ threshold) × (threshold ≤ length signers)
  threshold_bounds text h = (ground (arith, h), ground (arith, h))

  -- Whatever is asked and answered, `SetTeeGovernance` sends no transaction but the one, signed by the
  -- given key, that sets the given signers and threshold for the given extension, and that only with a
  -- threshold between 1 and the number of signers.
  pub set_tee_governance-Governs : Only P (set_tee_governance lib out s prv id signers threshold)
  unfolding set_tee_governance
  set_tee_governance-Governs w = andthen-Added P _ _ w (Added-none P w) (λ u signed.
      andthen-Added P _ _ w (Added-none P w) (λ u' bounded.
        let (low, high) = threshold_bounds _ bounded in
        andthen-Added P _ _ w (Added-none P w) (λ desired hashed.
          on_error-Only P _ _ _ (perform-Only P out _ tt) (λ e. send_governance-Governs low high)
            (λ current. if-Only P _ _ _ (Added-none P) (send_governance-Governs low high)) w)))

  -- The chain answered, to the first call, that the governance in force is the one asked for.
  abbrev pub InForce : World → Type 0
  InForce w =
      (h : Hash) × (lib.governance_hash signers threshold ≡ ok h)
      × (out.answer w.journal (latest_governance_hash id) ≡ ok h)

  -- A transaction is one of `Governs`, and the governance asked for is not in force.
  abbrev pub Changes : World → Call → Type 0
  Changes start (Call.send signer value tx) =
      Governs prv id signers threshold (Call.send signer value tx) × ¬ InForce start
  Changes start (Call.submit k value gas_limit tx) = ⊥
  Changes start (Call.deploy_auction k extensions machines) = ⊥
  Changes start _ = Unit

  -- No transaction is sent where the governance is in force.
  Governs-Changes :
      (start : World)
      → ¬ InForce start
      → (c : Call) → Governs prv id signers threshold c
      → Changes start c
  Governs-Changes start other (Call.send signer value tx) p = (p, other)
  Governs-Changes start other (Call.submit k value gas_limit tx) p = p
  Governs-Changes start other (Call.deploy_auction k extensions machines) p = p
  Governs-Changes start other _ p = tt

  send_governance-Changes :
      (start : World)
      → ¬ InForce start
      → 1 ≤ threshold
      → threshold ≤ length signers
      → Only (Changes start) (send_governance lib out s prv id signers threshold)
  send_governance-Changes start other low high w =
      Added-weaken P (Changes start) w (send_governance lib out s prv id signers threshold w).1
        (Governs-Changes start other) (send_governance-Governs low high w)

  -- An answer that is not the hash asked for.
  other_hash :
      (w : World) (desired current : Hash)
      → lib.governance_hash signers threshold ≡ ok desired
      → out.answer w.journal (latest_governance_hash id) ≡ ok current
      → (current == desired) ≡ false
      → ¬ InForce w
  other_hash w desired current hashed found apart (h, wanted, answered) =
      let same_desired = ok_injective desired h (sym hashed ∙ wanted) in
      let same_current = ok_injective current h (sym found ∙ answered) in
      ground (arith, apart, same_desired, same_current)

  abbrev look_up : Hash → Act (Unit {0})
  look_up desired =
      on_error (perform out (latest_governance_hash id))
        (λ e. send_governance lib out s prv id signers threshold)
        (λ current.
          if current == desired
          then done tt
          else send_governance lib out s prv id signers threshold)

  -- Where the governance is not in force, all calls are allowed that `Governs` allows.
  look_up-other :
      (start w : World) (desired : Hash)
      → ¬ InForce start
      → 1 ≤ threshold
      → threshold ≤ length signers
      → Added (Changes start) w (look_up desired w).1
  look_up-other start w desired other low high =
      on_error-Only (Changes start) _ _ _ (perform-Only (Changes start) out _ tt)
        (λ e. send_governance-Changes start other low high)
        (λ current.
          if-Only (Changes start) _ _ _ (Added-none (Changes start))
            (send_governance-Changes start other low high))
        w

  look_up-Changes :
      (w : World) (desired : Hash)
      → lib.governance_hash signers threshold ≡ ok desired
      → 1 ≤ threshold
      → threshold ≤ length signers
      → Added (Changes w) w (look_up desired w).1
  unfolding on_error perform
  look_up-Changes w desired hashed low high =
      elim (Result-cases (out.answer w.journal (latest_governance_hash id))) [
        | inr (t, failed) ↦ look_up-other w w desired (λ (h, wanted, answered). cc) low high
        | inl (current, found) ↦ elim (Bool-cases (current == desired)) [
          | inr apart ↦
              look_up-other w w desired (other_hash w desired current hashed found apart) low high
          | inl same ↦ rw (found, same) (latest_governance_hash id ∷ [], refl, (tt, tt))
        ]
      ]

  -- Whatever is asked and answered, `SetTeeGovernance` sends its transaction only where the chain did
  -- not answer that the governance hash of these signers and this threshold is the latest one already:
  -- its look-up failed, or it named another hash.
  pub set_tee_governance-Changes :
      (w : World) → Added (Changes w) w (set_tee_governance lib out s prv id signers threshold w).1
  unfolding set_tee_governance
  set_tee_governance-Changes w =
      let nothing = Added-none (Changes w) w in
      andthen-Added (Changes w) _ _ w nothing (λ u signed.
        andthen-Added (Changes w) _ _ w nothing (λ u' bounded.
          let (low, high) = threshold_bounds _ bounded in
          andthen-Added (Changes w) _ _ w nothing
            (λ desired hashed. look_up-Changes w desired (map_err_ok _ _ desired hashed) low high)))
