-- ===== src/Commands/Machines/Spared.antt =====
-- The machines that reconcile-tee never pauses (tools/cmd/reconcile-tee/main.go).
use sealed_auction_fce.Prelude.{
  refl, ℕ, ◌≡◌, ◌≢◌, inl, inr, List, [], ◌∷◌, String, ok, Bool-cases, ◌==◌, ==_iff, arith, ◌+◌,
}
use sealed_auction_fce.Extension.Types.{Address}
use sealed_auction_fce.Chain.{
  Call, Tx, Outside, World, perform, get_machine_owner, get_machine_status,
}
use sealed_auction_fce.Chain.Journal.{
  Added, Only, Added-none, andthen-Only, andthen-Added, on_error-Added, perform-Only, check_tx-Only,
}
use sealed_auction_fce.Registration.{Library, Support, TeeInfo, tee_info, tee_proxy_id}
use sealed_auction_fce.Commands.Machines.{
  status_production, pause, pause_if_ours, reconcile_one, reconcile_all, reconcile_tee,
}

module _ (lib : Library) (out : Outside) (s : Support) where
  -- The chain answered that the deployer owns the machine.
  abbrev pub Ours : Address → Type 0
  Ours tee = (h : List Call) × (out.answer h (get_machine_owner tee) ≡ ok (lib.key_address s.prv))

  -- The live machine is the one of the proxy's key, and the chain answered that it is in production.
  abbrev pub Live : String → World → Address → Type 0
  Live url w live =
      (info : TeeInfo) × (proxy : Address) × ((tee_info lib out url w).0 ≡ ok info)
      × (tee_proxy_id lib info ≡ ok (live, proxy))
      × ((h : List Call) × (out.answer h (get_machine_status live) ≡ ok status_production))

  -- A pause is signed by the support key, of a machine of ours that is not the live one; there is no other transaction.
  abbrev pub Spares : String → World → Call → Type 0
  Spares url w (Call.send signer value (Tx.pause_machine tee)) =
      (signer ≡ s.prv) × Ours tee × (live : Address) × Live url w live × (tee ≢ live)
  Spares url w (Call.send signer value tx) = ⊥
  Spares url w (Call.submit k v g tx) = ⊥
  Spares url w (Call.deploy_auction k e m) = ⊥
  Spares url w _ = Unit

  module _ (url : String) (start : World) where
    abbrev P : Call → Type 0
    P = Spares url start

    nothing : (w : World) → Added P w w
    nothing w = Added-none P w

    pause-Spares :
        (tee live : Address)
        → Ours tee
        → Live url start live
        → tee ≢ live
        → Only P (pause lib out s tee)
    unfolding pause
    pause-Spares tee live ours is_live apart = andthen-Only P _ _ nothing (λ u.
        andthen-Only P _ _ (perform-Only P out _ (refl, ours, live, is_live, apart)) (λ tx.
          andthen-Only P _ _ (check_tx-Only P out tx tt tt (λ from content. tt))
            (λ receipt. nothing)))

    pause_if_ours-Spares :
        (tee live owner : Address) (h : List Call)
        → out.answer h (get_machine_owner tee) ≡ ok owner
        → Live url start live
        → tee ≢ live
        → Only P (pause_if_ours lib out s tee owner)
    unfolding pause_if_ours
    pause_if_ours-Spares tee live owner h answered is_live apart =
        elim (Bool-cases (owner == lib.key_address s.prv)) [
          | inr other ↦ rw (pause_if_ours, other) nothing
          | inl ours ↦
              let owned : Ours tee =
                (h, rw (← (==_iff owner (lib.key_address s.prv)).0 ours) answered) in
              rw (pause_if_ours, ours)
                (andthen-Only P _ _ (pause-Spares tee live owned is_live apart) (λ u. nothing))
        ]

    reconcile_one-Spares :
        (live tee : Address) → Live url start live → Only P (reconcile_one lib out s live tee)
    unfolding reconcile_one perform
    reconcile_one-Spares live tee is_live w = elim (Bool-cases (tee == live)) [
      | inl same ↦ rw (reconcile_one, same) (nothing w)
      | inr apart ↦
          rw (reconcile_one, apart)
            (on_error-Added P (perform out (get_machine_owner tee)) _ _ w
              (perform-Only P out (get_machine_owner tee) tt w)
              (λ e. nothing (perform out (get_machine_owner tee) w).1)
              (λ owner answered.
                pause_if_ours-Spares tee live owner w.journal answered is_live
                  (λ e. ground (arith, apart, e)) (perform out (get_machine_owner tee) w).1))
    ]

    reconcile_all-Spares :
        (live : Address) (tees : List Address) (n : ℕ)
        → Live url start live
        → Only P (reconcile_all lib out s live tees n)
    unfolding reconcile_all
    reconcile_all-Spares live [] n is_live = nothing
    reconcile_all-Spares live (tee ∷ tees) n is_live =
        andthen-Only P _ _ (reconcile_one-Spares live tee is_live)
          (λ paused. reconcile_all-Spares live tees (n + paused) is_live)

    tee_info-Spares : Only P (tee_info lib out url)
    unfolding tee_info
    tee_info-Spares = andthen-Only P _ _ (perform-Only P out _ tt) (λ reply. nothing)

    -- Whatever the chain and the proxy answer, reconcile-tee sends no transaction but pauses; it
    -- sends none unless the chain answered that the live machine, the one of the key in the proxy's
    -- answer, is in production; and it pauses only machines that are not the live one and whose owner
    -- the chain named as the deployer.
    pub reconcile_tee-Spares : Added P start (reconcile_tee lib out s url start).1
    unfolding reconcile_tee perform
    reconcile_tee-Spares = andthen-Added P _ _ start (tee_info-Spares start) (λ info fetched.
        andthen-Added P _ _ (tee_info lib out url start).1 (nothing (tee_info lib out url start).1)
          (λ ids known.
            let w = (tee_info lib out url start).1 in
            on_error-Added P (perform out (get_machine_status ids.0)) _ _ w
              (perform-Only P out (get_machine_status ids.0) tt w)
              (λ e. nothing (perform out (get_machine_status ids.0) w).1)
              (λ status answered. elim (Bool-cases (status == status_production)) [
                | inr other ↦ rw other (nothing (perform out (get_machine_status ids.0) w).1)
                | inl production ↦
                    let is_live : Live url start ids.0 = (
                      info,
                      ids.1,
                      fetched,
                      known,
                      (w.journal, rw (← (==_iff status status_production).0 production) answered),
                    ) in
                    rw production (
                      andthen-Only P _ _ (perform-Only P out _ tt)
                        (λ active. reconcile_all-Spares ids.0 active 0 is_live) _)
              ])))
