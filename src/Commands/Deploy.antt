-- ===== src/Commands/Deploy.antt =====
-- deploy-contract and register-extension (tools/cmd/deploy-contract/main.go,
-- tools/cmd/register-extension/main.go), after `DefaultSupport`.
use sealed_auction_fce.Prelude.{
  ℕ, Bool, Option, none, some, String, fail_if, is_empty, if◌then◌else◌,
}
use sealed_auction_fce.Extension.Types.{Address}
use sealed_auction_fce.Chain.{Outside, Act, done, lift, perform, write_path, ◌>>=◌, ◌>>◌}
use sealed_auction_fce.Registration.{Library, Support, try}
use sealed_auction_fce.Setup.{setup_extension}
use sealed_auction_fce.Checks.{Env, Client}
use sealed_auction_fce.Checks.Deploy.{
  address_not_zero, address_has_code, key_has_funds, min_deploy_balance,
}
use sealed_auction_fce.Addresses.{Addresses}
use sealed_auction_fce.Utils.{MarketLibrary}
use sealed_auction_fce.Utils.Instructions.{deploy_instruction_sender}

module _ (lib : Library) (m : MarketLibrary) (env : Env) (client : Client) (out : Outside)
    (s : Support) where
  -- The checks before a deployment.
  unfoldable pub preflight : Address → Act (Unit {0})
  preflight manager = do
    lift (address_not_zero env manager "FlareTeeManager")
    lift (address_has_code env (some client) manager "FlareTeeManager")
    lift (key_has_funds env (some client) (lib.key_address s.prv) min_deploy_balance)

  -- The address is also written to a file when one is named, whose errors are dropped.
  unfoldable pub publish : Address → String → Act Address
  publish address out_file =
      if is_empty out_file
      then done address
      else try lib out (perform out (write_path out_file (env.address_hex address))) (done address)

  -- deploy-contract: the address of the contract, or none after the checks alone.
  unfoldable pub deploy_contract : Addresses → Bool → String → Act (Option Address)
  deploy_contract addrs preflight_only out_file = do
    preflight addrs.flare_tee_manager
    (if preflight_only
        then done none
        else deploy_instruction_sender lib m out s addrs.flare_tee_manager
          >>= (λ address. publish address out_file >>= (λ published. done (some published))))

  -- register-extension: the id that is printed.
  unfoldable pub register_extension_of : String → Act ℕ
  register_extension_of sender_text = do
    lift (fail_if (is_empty sender_text) "--instructionSender flag is required")
    lift (address_has_code env (some client) (env.hex_to_address sender_text) "InstructionSender")
    setup_extension lib out s (env.hex_to_address sender_text) 0
