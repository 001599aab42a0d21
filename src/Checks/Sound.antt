-- ===== src/Checks/Sound.antt =====
-- What the deployment checks establish when none fails (tools/pkg/validate/checks.go).
use sealed_auction_fce.Prelude.{
  ℕ, ◌≡◌, ◌≢◌, refl, sym, ap, ◌∙◌, false, ◌||◌, inl, inr, Option, none, some, List, [], ◌∷◌, ◌++◌,
  String, Bool-cases, Result-cases, ok, arith, ◌==◌, All, ltb_ℤ, ℤ,
}
use sealed_auction_fce.Extension.Types.{Address, Bytes}
use sealed_auction_fce.Report.{Report, is_fail, has_failures}
use sealed_auction_fce.Checks.{Env, Client}
use sealed_auction_fce.Checks.Deploy.{
  address_not_zero, address_has_code, key_has_funds, check_d3, check_d1, zero_checks, code_checks,
  check_deployer_key_source, check_funds, register_deploy_checks, min_deploy_balance,
}

has_failures-append :
    (xs ys : Report) → has_failures (xs ++ ys) ≡ (has_failures xs || has_failures ys)
unfolding has_failures
has_failures-append [] ys = refl
has_failures-append (res ∷ xs) ys = ground (arith, has_failures-append xs ys)

-- No failure in two parts is no failure in each.
neither :
    (xs ys : Report)
    → has_failures (xs ++ ys) ≡ false
    → (has_failures xs ≡ false) × (has_failures ys ≡ false)
neither xs ys h =
    (ground (arith, h, has_failures-append xs ys), ground (arith, h, has_failures-append xs ys))

-- The address is not zero, and the client finds code at it.
abbrev pub Deployed : Client → String × Address → Type 0
Deployed client (label, addr) =
    (addr ≢ 0) × ((b : ℕ) × (code : Bytes) × (client.code_at addr ≡ ok (b ∷ code)))

-- The account of the key, when there is one, has at least the minimal balance.
abbrev pub Funded : Client → Option Address → Type 0
Funded client none = Unit
Funded client (some addr) =
    (balance : ℤ) × (client.balance_at addr ≡ ok balance)
    × (ltb_ℤ balance min_deploy_balance ≡ false)

module _ (env : Env) (client : Client) where
  funds_passed :
      (key : Option Address)
      → has_failures (check_funds env (some client) key) ≡ false
      → Funded client key
  unfolding check_funds key_has_funds has_failures
  funds_passed none = λ h. tt
  funds_passed (some addr) = elim (Result-cases (client.balance_at addr)) [
    | inr (t, failed) ↦ rw (failed, check_funds) (λ h. absurd (cc h))
    | inl (balance, found) ↦ elim (Bool-cases (ltb_ℤ balance min_deploy_balance)) [
      | inl low ↦ rw (found, check_funds, low) (λ h. absurd (cc h))
      | inr enough ↦ λ h. (balance, found, enough)
    ]
  ]

  nonzero_passed :
      (label : String) (addr : Address)
      → is_fail (check_d3 env label addr).status ≡ false
      → addr ≢ 0
  unfolding check_d3 address_not_zero
  nonzero_passed label addr = elim (Bool-cases (addr == 0)) [
    | inl zero_addr ↦ rw (zero_addr, check_d3) (λ h. absurd (cc h))
    | inr other ↦ λ h e. ground (arith, other, e)
  ]

  code_passed :
      (label : String) (addr : Address)
      → is_fail (check_d1 env (some client) label addr).status ≡ false
      → (b : ℕ) × (code : Bytes) × (client.code_at addr ≡ ok (b ∷ code))
  unfolding check_d1 address_has_code
  code_passed label addr = elim (Result-cases (client.code_at addr)) [
    | inr (t, failed) ↦ rw (failed, check_d1) (λ h. absurd (cc h))
    | inl ([], found) ↦ rw (found, check_d1) (λ h. absurd (cc h))
    | inl (b ∷ bytes, found) ↦ λ h. (b, bytes, found)
  ]

  code_one :
      (label : String) (addr : Address) (addresses : List (String × Address))
      → (addr == 0) ≡ false
      → code_checks env (some client) ((label, addr) ∷ addresses)
        ≡ check_d1 env (some client) label addr ∷ code_checks env (some client) addresses
  unfolding code_checks
  code_one label addr addresses apart = rw apart refl

  All-Deployed :
      (addresses : List (String × Address))
      → has_failures (zero_checks env addresses) ≡ false
      → has_failures (code_checks env (some client) addresses) ≡ false
      → All (Deployed client) addresses
  unfolding zero_checks code_checks has_failures
  All-Deployed [] h k = tt
  All-Deployed ((label, addr) ∷ addresses) h k =
      let first : is_fail (check_d3 env label addr).status ≡ false = ground (arith, h) in
      let rest : has_failures (zero_checks env addresses) ≡ false = ground (arith, h) in
      let nonzero = nonzero_passed label addr first in
      let apart : (addr == 0) ≡ false = ground (arith, nonzero) in
      let code : has_failures
            (check_d1 env (some client) label addr ∷ code_checks env (some client) addresses)
          ≡ false =
        sym (ap has_failures (code_one label addr addresses apart)) ∙ k in
      (
        (nonzero, code_passed label addr (ground (arith, code))),
        All-Deployed addresses rest (ground (arith, code)),
      )

-- When `RegisterDeployChecks`, run with a client on an empty report, reports no failure, every address
-- of the file is not zero and has code, and with a key its account has the minimal balance.
pub register_deploy_checks_sound :
    (env : Env) (client : Client) (key : Option Address) (addresses : List (String × Address))
    (path : String)
    → has_failures (register_deploy_checks env [] (some client) key addresses path) ≡ false
    → All (Deployed client) addresses × Funded client key
unfolding register_deploy_checks
register_deploy_checks_sound env client key addresses path h =
    let (zeros, rest) = neither (zero_checks env addresses) _ h in
    let (codes, rest') = neither (code_checks env (some client) addresses) _ rest in
    let (source, rest'') = neither (check_deployer_key_source env ∷ []) _ rest' in
    let (funds, rest3) = neither (check_funds env (some client) key) _ rest'' in
    (All-Deployed env client addresses zeros codes, funds_passed env client key funds)
