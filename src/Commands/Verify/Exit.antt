-- ===== src/Commands/Verify/Exit.antt =====
-- What the exit code of verify-deploy means (tools/cmd/verify-deploy/main.go).
use mathlib.Core.List.{Memᴰ}
use mathlib.Core.Path.{subst}
use sealed_auction_fce.Prelude.{
  ◌⊎◌, str_eq, str_eq_iff, if◌then◌else◌, err, ok_injective, ◌≡◌, ◌↔◌, refl, ap, sym, ◌∙◌, Bool,
  true, false, inl, inr, List, [], ◌∷◌, String, Result, ok, Bool-cases, Result-cases, is_empty,
  ◌||◌, arith,
}
use sealed_auction_fce.Report.{CheckResult, Report, is_fail, has_failures}
use sealed_auction_fce.Checks.{Env}
use sealed_auction_fce.Checks.Services.{register_services_checks}
use sealed_auction_fce.Checks.Tee.{register_tee_version_checks, register_tee_machine_checks}
use sealed_auction_fce.Checks.Testing.{register_test_checks}
use sealed_auction_fce.Commands.Verify.{
  deploy_checks, registration_checks, all_checks, Opened, split_comma, ids_in, listed, keep_listed,
  filtered, collected, verify_deploy,
}

-- The filter is empty or names the check.
abbrev pub is_asked : String → CheckResult → Bool
is_asked filter res = is_empty filter || listed (ids_in (split_comma filter)) res.id

-- No result that was asked for is a failure.
abbrev pub Clean : String → Report → Type 0
Clean filter r =
    (res : CheckResult) → Memᴰ res r → is_asked filter res ≡ true → is_fail res.status ≡ false

-- Every result that meets the test is no failure.
abbrev FineWhere : (CheckResult → Bool) → Report → Type 0
FineWhere asked r = (res : CheckResult) → Memᴰ res r → asked res ≡ true → is_fail res.status ≡ false

has_failures_cons :
    (res : CheckResult) (r : Report)
    → is_fail res.status ≡ false
    → has_failures r ≡ false
    → has_failures (res ∷ r) ≡ false
unfolding has_failures
has_failures_cons res r fine rest = rw (fine, has_failures) rest

has_failures_parts :
    (res : CheckResult) (r : Report)
    → has_failures (res ∷ r) ≡ false
    → (is_fail res.status ≡ false) × (has_failures r ≡ false)
unfolding has_failures
has_failures_parts res r = elim (Bool-cases (is_fail res.status)) [
  | inl bad ↦ rw (bad, has_failures) (λ h. absurd (cc h))
  | inr fine ↦ rw (fine, has_failures) (λ h. (refl, h))
]

all_fine :
    (r : Report)
    → has_failures r ≡ false
    → (res : CheckResult) → Memᴰ res r
    → is_fail res.status ≡ false
all_fine [] h res m = elim m [ ]
all_fine (x ∷ r) h res (Memᴰ.head e) =
    ap (λ (u : CheckResult). is_fail u.status) e ∙ (has_failures_parts x r h).0
all_fine (x ∷ r) h res (Memᴰ.tail m) = all_fine r (has_failures_parts x r h).1 res m

no_failures :
    (r : Report)
    → ((res : CheckResult) → Memᴰ res r → is_fail res.status ≡ false)
    → has_failures r ≡ false
unfolding has_failures
no_failures [] h = refl
no_failures (x ∷ r) h =
    has_failures_cons x r (h x (Memᴰ.head refl)) (no_failures r (λ res m. h res (Memᴰ.tail m)))

module _ (ids : List String) where
  abbrev is_listed : CheckResult → Bool
  is_listed res = listed ids res.id

  kept_fine : (r : Report) → has_failures (keep_listed ids r) ≡ false → FineWhere is_listed r
  unfolding keep_listed
  kept_fine [] = λ h res m asked. elim m [ ]
  kept_fine (x ∷ r) = elim (Bool-cases (listed ids x.id)) [
    | inl named ↦
        rw (named, keep_listed)
          (λ h res m asked.
            let (fine, rest) = has_failures_parts x (keep_listed ids r) h in
            elim m [
              | Memᴰ.head e ↦ ap (λ (u : CheckResult). is_fail u.status) e ∙ fine
              | Memᴰ.tail later ↦ kept_fine r rest res later asked
            ])
    | inr unnamed ↦
        rw (unnamed, keep_listed)
          (λ h res m asked. elim m [
            | Memᴰ.head e ↦
                absurd (cc (ap (λ (u : CheckResult). listed ids u.id) e, unnamed, asked))
            | Memᴰ.tail later ↦ kept_fine r h res later asked
          ])
  ]

  fine_kept : (r : Report) → FineWhere is_listed r → has_failures (keep_listed ids r) ≡ false
  unfolding keep_listed has_failures
  fine_kept [] h = refl
  fine_kept (x ∷ r) h =
      let rest = fine_kept r (λ res m. h res (Memᴰ.tail m)) in
      elim (Bool-cases (listed ids x.id)) [
        | inl named ↦
            rw (named, keep_listed)
              (has_failures_cons x (keep_listed ids r) (h x (Memᴰ.head refl) named) rest)
        | inr unnamed ↦ rw (unnamed, keep_listed) rest
      ]

filtered-Clean :
    (filter : String) (r : Report) → (has_failures (filtered filter r) ≡ false) ↔ Clean filter r
unfolding filtered
filtered-Clean filter r = elim (Bool-cases (is_empty filter)) [
  | inl none_asked ↦
      rw (none_asked, filtered)
        (λ h res m asked. all_fine r h res m, λ h. no_failures r (λ res m. h res m refl))
  | inr some_asked ↦
      rw (some_asked, filtered)
        (kept_fine (ids_in (split_comma filter)) r, fine_kept (ids_in (split_comma filter)) r)
]

module _ (env : Env) (support : Result Opened) (path : String) where
  -- With the connection of `DefaultSupport`.
  abbrev Connected : (Opened → Report) → Report → Type 0
  Connected checks r = (s : Opened) × (support ≡ ok s) × (r ≡ checks s)

  -- The step is one of the seven, its connection was made if it needs one, and these are the results
  -- of its checks, on an empty report.
  abbrev pub ResultsOf : String → Report → Type 0
  ResultsOf step r =
      ((step ≡ "deploy") × Connected (λ s. deploy_checks env path s []) r)
      ⊎ (((step ≡ "register") × Connected (λ s. registration_checks env path s []) r)
          ⊎ (((step ≡ "all") × Connected (all_checks env path) r)
              ⊎ (((step ≡ "services") × (r ≡ register_services_checks env [] path))
                  ⊎ (((step ≡ "tee-version") × (r ≡ register_tee_version_checks env [] path))
                      ⊎ (((step ≡ "tee-machine") × (r ≡ register_tee_machine_checks env []))
                          ⊎ ((step ≡ "test") × (r ≡ register_test_checks env [] path)))))))

  ResultsOf-collected :
      (step : String) (r : Report) → ResultsOf step r → collected env support path step ≡ ok r
  unfolding collected
  ResultsOf-collected step r (inl (e, (s, opened, same))) = rw (e, opened, e, same) refl
  ResultsOf-collected step r (inr (inl (e, (s, opened, same)))) = rw (e, opened, e, same) refl
  ResultsOf-collected step r (inr (inr (inl (e, (s, opened, same))))) = rw (e, opened, e, same) refl
  ResultsOf-collected step r (inr (inr (inr (inl (e, same))))) = rw (e, same) refl
  ResultsOf-collected step r (inr (inr (inr (inr (inl (e, same)))))) = rw (e, same) refl
  ResultsOf-collected step r (inr (inr (inr (inr (inr (inl (e, same))))))) = rw (e, same) refl
  ResultsOf-collected step r (inr (inr (inr (inr (inr (inr (e, same))))))) = rw (e, same) refl

  abbrev LocalResults : String → Report → Type 0
  LocalResults step r =
      ((step ≡ "services") × (r ≡ register_services_checks env [] path))
      ⊎ (((step ≡ "tee-version") × (r ≡ register_tee_version_checks env [] path))
          ⊎ (((step ≡ "tee-machine") × (r ≡ register_tee_machine_checks env []))
              ⊎ ((step ≡ "test") × (r ≡ register_test_checks env [] path))))

  -- The steps that need no connection.
  abbrev local_results : String → Result Report
  local_results step =
      if str_eq step "services"
      then ok (register_services_checks env [] path)
      else if str_eq step "tee-version"
      then ok (register_tee_version_checks env [] path)
      else if str_eq step "tee-machine"
      then ok (register_tee_machine_checks env [])
      else if str_eq step "test"
      then ok (register_test_checks env [] path)
      else err "Unknown step"

  local : (step : String) (r : Report) → local_results step ≡ ok r → LocalResults step r
  local step r = elim (Bool-cases (str_eq step "services")) [
    | inl d ↦ rw d (λ h. inl ((str_eq_iff step "services").0 d, sym (ok_injective _ r h)))
    | inr ns ↦ elim (Bool-cases (str_eq step "tee-version")) [
      | inl d ↦
          rw (ns, d)
            (λ h. inr (inl ((str_eq_iff step "tee-version").0 d, sym (ok_injective _ r h))))
      | inr nv ↦ elim (Bool-cases (str_eq step "tee-machine")) [
        | inl d ↦
            rw (ns, nv, d)
              (λ h. inr (inr (inl ((str_eq_iff step "tee-machine").0 d, sym (ok_injective _ r h)))))
        | inr nm ↦ elim (Bool-cases (str_eq step "test")) [
          | inl d ↦
              rw (ns, nv, nm, d)
                (λ h. inr (inr (inr ((str_eq_iff step "test").0 d, sym (ok_injective _ r h)))))
          | inr nt ↦ rw (ns, nv, nm, nt) (λ h. absurd (cc h))
        ]
      ]
    ]
  ]

  collected-ResultsOf :
      (step : String) (r : Report) → collected env support path step ≡ ok r → ResultsOf step r
  unfolding collected
  collected-ResultsOf step r = elim (Result-cases support) [
    | inr (t, closed) ↦
        elim (Bool-cases (str_eq step "deploy" || str_eq step "register" || str_eq step "all")) [
          | inl any ↦ rw (any, closed) (λ h. absurd (cc h))
          | inr none ↦ rw none (λ h. inr (inr (inr (local step r h))))
        ]
    | inl (s, opened) ↦ elim (Bool-cases (str_eq step "deploy")) [
      | inl d ↦
          rw (d, opened, d)
            (λ h. inl ((str_eq_iff step "deploy").0 d, (s, refl, sym (ok_injective _ r h))))
      | inr nd ↦ elim (Bool-cases (str_eq step "register")) [
        | inl d ↦
            rw (nd, d, opened, nd, d)
              (λ h.
                inr (inl ((str_eq_iff step "register").0 d, (s, refl, sym (ok_injective _ r h)))))
        | inr nr ↦ elim (Bool-cases (str_eq step "all")) [
          | inl d ↦
              rw (nd, nr, d, opened, nd, nr)
                (λ h.
                  inr
                    (inr (inl ((str_eq_iff step "all").0 d, (s, refl, sym (ok_injective _ r h))))))
          | inr na ↦ rw (nd, nr, na) (λ h. inr (inr (inr (local step r h))))
        ]
      ]
    ]
  ]

module _ (env : Env) (support : Result Opened) (path step filter : String) where
  -- No result of the step that was asked for is a failure.
  abbrev pub Verified : Type 0
  Verified = (r : Report) × ResultsOf env support path step r × Clean filter r

  -- verify-deploy exits with code 0 exactly when the step is one of the seven, the connection that it
  -- needs could be made, and no result of the checks of the step is a failure, among those that the
  -- filter names when it is not empty.
  pub verify_deploy_exit : ((verify_deploy env support path step filter).0 ≡ 0) ↔ Verified
  unfolding verify_deploy
  verify_deploy_exit = elim (Result-cases (collected env support path step)) [
    | inr (t, failed) ↦
        rw (failed, verify_deploy)
          (
            λ h. absurd (omega (arith, h)),
            λ (r, results, clean).
                absurd (cc (failed, ResultsOf-collected env support path step r results)),
          )
    | inl (r, got) ↦ elim (Bool-cases (has_failures (filtered filter r))) [
      | inl bad ↦
          rw (got, bad, verify_deploy)
            (
              λ h. absurd (omega (arith, h)),
              λ (r', results, clean').
                  let same : ok r ≡ ok r' =
                    sym got ∙ ResultsOf-collected env support path step r' results in
                  let clean : Clean filter r =
                    subst (Clean filter) (sym (ok_injective r r' same)) clean' in
                  absurd (cc (bad, (filtered-Clean filter r).1 clean)),
            )
      | inr good ↦
          rw (got, good, verify_deploy)
            (
              λ h. (
                r,
                collected-ResultsOf env support path step r got,
                (filtered-Clean filter r).0 good,
              ),
              λ v. refl,
            )
    ]
  ]
