-- ===== src/Commands/Machines/Reconciled.antt =====
-- That reconcile-tee converges (tools/cmd/reconcile-tee/main.go).
use Prim.Native.String.{◌++◌ as append}
use mathlib.Core.Path.{subst}
use sealed_auction_fce.Prelude.{
  ℕ, ◌≡◌, sym, ap, true, false, inl, inr, List, [], ◌∷◌, ◌++◌, String, ok, Bool-cases, ◌==◌, arith,
  ◌+◌, if◌then◌else◌, not, ◌&&◌, length, Bool,
}
use sealed_auction_fce.Extension.Types.{Address, Hash}
use sealed_auction_fce.Chain.{
  Call, HttpReply, http_get, done, Outside, World, Act, Receipt, pause_machine, send,
  get_machine_owner, get_machine_status, get_active_machines, wait_mined, tx_failed, check_tx,
}
use sealed_auction_fce.Chain.Journal.{append_nil}
use sealed_auction_fce.Registration.{Library, Support, TeeInfo, tee_info, tee_proxy_id}
use sealed_auction_fce.Commands.Machines.{
  status_production, pause, pause_if_ours, reconcile_one, reconcile_all, reconcile_tee,
}
use sealed_auction_fce.Commands.Machines.Answered.{
  pauses, RunsTo, RunsTo-done, RunsTo-andthen, RunsTo-on_error, RunsTo-perform, RunsTo-wrap,
  RunsTo-lift,
}

-- The machines of the deployer besides the live one.
abbrev pub stale : (Address → Address) → Address → Address → List Address → List Address
stale owner deployer live [] = []
stale owner deployer live (tee ∷ tees) =
    (if not (tee == live) && owner tee == deployer then tee ∷ [] else [])
    ++ stale owner deployer live tees

counted :
    (b : Bool) (n : ℕ) (tee : Address) (rest : List Address)
    → n + (if b then 1 else 0) + length rest ≡ n + length ((if b then tee ∷ [] else []) ++ rest)
counted true n tee rest = omega arith
counted false n tee rest = omega arith

-- A chain that answers every call about the machines: each machine has an owner, and every pause is
-- sent and mined with success.
pub record Answering (out : Outside) : Type 1 where
  pub owner : Address → Address
  pub hash : Hash
  pub receipt : Receipt
  pub owns : (h : List Call) (tee : Address) → out.answer h (get_machine_owner tee) ≡ ok (owner tee)
  pub sends :
      (h : List Call) (key : ℕ) (tee : Address)
      → out.answer h (send key 0 (pause_machine tee)) ≡ ok hash
  pub mines : (h : List Call) → out.answer h (wait_mined hash) ≡ ok receipt
  pub succeeds : receipt.status == 0 ≡ false

module _ (lib : Library) (out : Outside) (s : Support) (chain : Answering out) where
  abbrev deployer : Address
  deployer = lib.key_address s.prv

  abbrev checked : Receipt → Act Receipt
  checked receipt = if receipt.status == 0 then tx_failed out chain.hash else done receipt

  check_tx_answered : (w : World) → RunsTo out (check_tx out chain.hash) w chain.receipt []
  unfolding check_tx
  check_tx_answered w =
      RunsTo-andthen out _ checked w chain.receipt chain.receipt [] []
        (RunsTo-wrap out _ _ w chain.receipt []
          (RunsTo-perform out (wait_mined chain.hash) w chain.receipt (chain.mines w.journal)))
        (λ v. rw chain.succeeds (RunsTo-done out chain.receipt v))

  pause_answered :
      (tee : Address) (w : World)
      → lib.transactor s.prv s.chain_id ≡ ok tt
      → RunsTo out (pause lib out s tee) w tt (tee ∷ [])
  unfolding pause
  pause_answered tee w signs =
      RunsTo-andthen out _ _ w tt tt [] (tee ∷ [])
        (w, ap (λ r. (r, w)) signs, sym (append_nil (pauses w.journal)))
        (λ v.
          RunsTo-andthen out _ _ v chain.hash tt (tee ∷ []) []
            (RunsTo-perform out (send s.prv 0 (pause_machine tee)) v chain.hash
              (chain.sends v.journal s.prv tee))
            (λ u.
              RunsTo-andthen out _ _ u chain.receipt tt [] [] (check_tx_answered u)
                (λ x. RunsTo-done out tt x)))

  pause_if_ours_answered :
      (tee : Address) (owner : Address) (w : World)
      → lib.transactor s.prv s.chain_id ≡ ok tt
      → RunsTo out
          (pause_if_ours lib out s tee owner)
          w
          (if owner == deployer then 1 else 0)
          (if owner == deployer then tee ∷ [] else [])
  unfolding pause_if_ours
  pause_if_ours_answered tee owner w signs = elim (Bool-cases (owner == deployer)) [
    | inr other ↦ rw (pause_if_ours, other) (RunsTo-done out 0 w)
    | inl ours ↦
        rw (pause_if_ours, ours)
          (RunsTo-andthen out _ _ w tt 1 (tee ∷ []) [] (pause_answered tee w signs)
            (λ v. RunsTo-done out 1 v))
  ]

  abbrev is_stale : Address → Address → Bool
  is_stale live tee = not (tee == live) && chain.owner tee == deployer

  reconcile_one_answered :
      (live tee : Address) (w : World)
      → lib.transactor s.prv s.chain_id ≡ ok tt
      → RunsTo out
          (reconcile_one lib out s live tee)
          w
          (if is_stale live tee then 1 else 0)
          (if is_stale live tee then tee ∷ [] else [])
  unfolding reconcile_one
  reconcile_one_answered live tee w signs = elim (Bool-cases (tee == live)) [
    | inl same ↦ rw (reconcile_one, same) (RunsTo-done out 0 w)
    | inr apart ↦
        rw (reconcile_one, apart)
          (RunsTo-on_error out _ _ _ w (chain.owner tee) _ [] _
            (RunsTo-perform out (get_machine_owner tee) w (chain.owner tee)
              (chain.owns w.journal tee))
            (λ v. pause_if_ours_answered tee (chain.owner tee) v signs))
  ]

  reconcile_all_answered :
      (live : Address) (tees : List Address) (n : ℕ) (w : World)
      → lib.transactor s.prv s.chain_id ≡ ok tt
      → RunsTo out
          (reconcile_all lib out s live tees n)
          w
          (n + length (stale chain.owner deployer live tees))
          (stale chain.owner deployer live tees)
  unfolding reconcile_all
  reconcile_all_answered live [] n w signs =
      subst (λ k. RunsTo out (done n) w k []) (omega arith) (RunsTo-done out n w)
  reconcile_all_answered live (tee ∷ tees) n w signs =
      let one = if is_stale live tee then 1 else 0 in
      subst
        (λ k.
          RunsTo out (reconcile_all lib out s live (tee ∷ tees) n) w k
            (stale chain.owner deployer live (tee ∷ tees)))
        (counted (is_stale live tee) n tee (stale chain.owner deployer live tees))
        (RunsTo-andthen out _ _ w one _ _ _ (reconcile_one_answered live tee w signs)
          (λ v. reconcile_all_answered live tees (n + one) v signs))

  tee_info_answered :
      (url : String) (reply : HttpReply) (info : TeeInfo) (w : World)
      → out.answer w.journal (http_get (append url "/info")) ≡ ok reply
      → lib.unmarshal_tee_info reply.body ≡ ok info
      → RunsTo out (tee_info lib out url) w info []
  unfolding tee_info
  tee_info_answered url reply info w fetched read =
      RunsTo-andthen out _ _ w reply info [] []
        (RunsTo-perform out (http_get (append url "/info")) w reply fetched)
        (λ v. RunsTo-lift out _ v info read)

  -- When the proxy answers with the live machine, the chain answers that it is in production and
  -- which machines are active, every pause is sent and mined with success and every owner is known,
  -- reconcile-tee ends without an error: it pauses exactly the active machines of the deployer that
  -- are not the live one, in their order, and returns their number.
  pub reconcile_tee_converges :
      (url : String) (reply : HttpReply) (info : TeeInfo) (live proxy : Address)
      (active : List Address) (w : World)
      → lib.transactor s.prv s.chain_id ≡ ok tt
      → out.answer w.journal (http_get (append url "/info")) ≡ ok reply
      → lib.unmarshal_tee_info reply.body ≡ ok info
      → tee_proxy_id lib info ≡ ok (live, proxy)
      → ((h : List Call) → out.answer h (get_machine_status live) ≡ ok status_production)
      → ((h : List Call)
          → out.answer h (get_active_machines info.machine_data.extension_id) ≡ ok active)
      → RunsTo out
          (reconcile_tee lib out s url)
          w
          (length (stale chain.owner deployer live active))
          (stale chain.owner deployer live active)
  unfolding reconcile_tee
  reconcile_tee_converges url reply info live proxy active w signs fetched read known produced
        listed =
      RunsTo-andthen out _ _ w info _ [] _ (tee_info_answered url reply info w fetched read) (λ v.
        RunsTo-andthen out _ _ v (live, proxy) _ [] _ (RunsTo-lift out _ v (live, proxy) known)
          (λ u.
            RunsTo-on_error out _ _ _ u status_production _ [] _
              (RunsTo-perform out (get_machine_status live) u status_production
                (produced u.journal))
              (λ x.
                RunsTo-andthen out _ _ x active _ [] _
                  (RunsTo-perform out (get_active_machines info.machine_data.extension_id) x active
                    (listed x.journal))
                  (λ y.
                    subst
                      (λ k.
                        RunsTo out (reconcile_all lib out s live active 0) y k
                          (stale chain.owner deployer live active))
                      (omega arith) (reconcile_all_answered live active 0 y signs)))))
