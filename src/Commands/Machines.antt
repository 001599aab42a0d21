-- ===== src/Commands/Machines.antt =====
-- pause-tee and reconcile-tee (tools/cmd/pause-tee/main.go, tools/cmd/reconcile-tee/main.go).
pub mod Answered
pub mod Reconciled
pub mod Spared
use sealed_auction_fce.Prelude.{
  ℕ, ◌+◌, List, [], ◌∷◌, String, Result, ok, err, ◌==◌, if◌then◌else◌, not, ◌||◌,
}
use sealed_auction_fce.Extension.Types.{Address}
use sealed_auction_fce.Chain.{
  Outside, Act, Receipt, done, stop, lift, on_error, perform, check_tx, send, pause_machine,
  get_machine_status, get_active_machines, get_machine_owner, ◌>>=◌, ◌>>◌,
}
use sealed_auction_fce.Registration.{Library, Support, TeeInfo, tee_info, tee_proxy_id}

abbrev pub status_production : ℕ
status_production = 2

module _ (lib : Library) (out : Outside) (s : Support) where
  unfoldable pub pause : Address → Act (Unit {0})
  pause tee = do
    lift (lib.transactor s.prv s.chain_id)
    tx ← perform out (send s.prv 0 (pause_machine tee))
    receipt ← check_tx out tx
    done tt

  -- One argument of pause-tee.
  unfoldable pub pause_one : Address → Act (Unit {0})
  pause_one tee = do
    status ← perform out (get_machine_status tee)
    (if status == status_production
        then pause tee >> (perform out (get_machine_status tee) >>= (λ now. done tt))
        else done tt)

  -- The loop of pause-tee over its arguments.
  unfoldable pub pause_all : List Address → Act (Unit {0})
  pause_all [] = done tt
  pause_all (tee ∷ tees) = pause_one tee >> pause_all tees

  -- What the owner of an active machine decides: one that we own is paused and counted.
  unfoldable pub pause_if_ours : Address → Address → Act ℕ
  pause_if_ours tee owner = if owner == lib.key_address s.prv then pause tee >> done 1 else done 0

  -- One active machine: the live one, one whose owner cannot be read and one of another owner are
  -- left alone.
  unfoldable pub reconcile_one : Address → Address → Act ℕ
  reconcile_one live tee =
      if tee == live
      then done 0
      else on_error (perform out (get_machine_owner tee)) (λ e. done 0)
          (λ owner. pause_if_ours tee owner)

  -- The loop of reconcile-tee: the number of machines paused, from the count so far.
  unfoldable pub reconcile_all : Address → List Address → ℕ → Act ℕ
  reconcile_all live [] stale = done stale
  reconcile_all live (tee ∷ tees) stale = do
    paused ← reconcile_one live tee
    reconcile_all live tees (stale + paused)

  abbrev registration_needed : String
  registration_needed = "exit 3: registration needed"

  -- reconcile-tee after `DefaultSupport`; the exit with code 3 is an error of its own.
  unfoldable pub reconcile_tee : String → Act ℕ
  reconcile_tee proxy_url = do
    info ← tee_info lib out proxy_url
    ids ← lift (tee_proxy_id lib info)
    on_error (perform out (get_machine_status ids.0)) (λ e. stop registration_needed)
        (λ status.
          if status == status_production
          then perform out (get_active_machines info.machine_data.extension_id)
            >>= (λ active. reconcile_all ids.0 active 0)
          else stop registration_needed)
