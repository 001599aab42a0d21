-- ===== src/Commands/Verify.antt =====
-- verify-deploy (tools/cmd/verify-deploy/main.go).
pub mod Exit
use Prim.Native.Char.{Char, code}
use sealed_auction_fce.Prelude.{
  ℕ, Bool, true, false, ◌||◌, Option, none, some, List, [], ◌∷◌, String, Result, ok, err, is_empty,
  str_eq, ◌==◌, if◌then◌else◌,
}
use sealed_auction_fce.Extension.Types.{Address}
use sealed_auction_fce.Report.{CheckResult, Report, has_failures, fprint}
use sealed_auction_fce.Checks.{Client, Registry, Allowlist, Env, trim_space}
use sealed_auction_fce.Checks.Deploy.{register_deploy_checks}
use sealed_auction_fce.Checks.Register.{register_registration_checks}
use sealed_auction_fce.Checks.Services.{register_services_checks}
use sealed_auction_fce.Checks.Tee.{register_tee_version_checks, register_tee_machine_checks}
use sealed_auction_fce.Checks.Testing.{register_test_checks}

-- What `DefaultSupport` gives.
pub record Opened : Type 0 where
  pub client : Client
  pub key : Address
  pub registry : Registry
  pub allowlist : Allowlist
  pub flare_tee_manager : Address

-- `strings.Split(s, ",")`.
unfoldable pub split_comma : String → List String
split_comma String.[] = "" ∷ []
split_comma (String.◌∷◌ c s) = if code c == 44 then "" ∷ split_comma s else elim (split_comma s) [
  | [] ↦ String.◌∷◌ c "" ∷ []
  | part ∷ parts ↦ String.◌∷◌ c part ∷ parts
]

-- The check ids that the filter names: its parts without blanks, but for empty ones.
unfoldable pub ids_in : List String → List String
ids_in [] = []
ids_in (part ∷ parts) =
    let rest = ids_in parts in if is_empty (trim_space part) then rest else trim_space part ∷ rest

unfoldable pub listed : List String → String → Bool
listed [] id = false
listed (allowed ∷ ids) id = str_eq allowed id || listed ids id

unfoldable pub keep_listed : List String → Report → Report
keep_listed ids [] = []
keep_listed ids (res ∷ r) =
    let rest = keep_listed ids r in if listed ids res.id then res ∷ rest else rest

unfoldable pub filtered : String → Report → Report
filtered filter r = if is_empty filter then r else keep_listed (ids_in (split_comma filter)) r

module _ (env : Env) (path : String) where
  abbrev deploy_checks : Opened → Report → Report
  deploy_checks s r =
      register_deploy_checks env r (some s.client) (some s.key)
        (("FlareTeeManager", s.flare_tee_manager) ∷ []) path

  abbrev registration_checks : Opened → Report → Report
  registration_checks s r =
      register_registration_checks env r (some s.client) (some s.key) (some s.registry)
        (some s.allowlist) path

  unfoldable pub all_checks : Opened → Report
  all_checks s =
      register_test_checks env
        (register_tee_machine_checks env (
          register_tee_version_checks env
            (register_services_checks env (registration_checks s (deploy_checks s [])) path) path))
        path

module _ (env : Env) (support : Result Opened) (path : String) where
  -- The results of a step, before the filter; the errors end the command.
  unfoldable pub collected : String → Result Report
  collected step =
      if str_eq step "deploy" || str_eq step "register" || str_eq step "all"
      then elim support [
        | err e ↦ err e
        | ok s ↦
            if str_eq step "deploy"
            then ok (deploy_checks env path s [])
            else if str_eq step "register"
            then ok (registration_checks env path s [])
            else ok (all_checks env path s)
      ]
      else if str_eq step "services"
      then ok (register_services_checks env [] path)
      else if str_eq step "tee-version"
      then ok (register_tee_version_checks env [] path)
      else if str_eq step "tee-machine"
      then ok (register_tee_machine_checks env [])
      else if str_eq step "test"
      then ok (register_test_checks env [] path)
      else err "Unknown step"

  -- The exit code, and the results that are printed.
  unfoldable pub verify_deploy : String → String → ℕ × Report
  verify_deploy step filter = elim (collected step) [
    | err e ↦ (1, [])
    | ok r ↦ (if has_failures (filtered filter r) then 1 else 0, filtered filter r)
  ]
