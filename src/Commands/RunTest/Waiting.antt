-- ===== src/Commands/RunTest/Waiting.antt =====
-- The wait for the bidding deadline (tools/cmd/run-test/main.go).
use mathlib.Core.Path.{subst}
use sealed_auction_fce.Prelude.{
  ℕ, zero, suc, ◌+◌, ◌≤◌, ◌≡◌, refl, ap, sym, ◌∙◌, true, false, inl, inr, List, [], ◌∷◌, ◌++◌, ok,
  Result, map_err, Bool, Bool-cases, Result-cases, leb, if◌then◌else◌, arith,
}
use sealed_auction_fce.Chain.{
  Call, done, Outside, World, Act, on_error, wrap, perform, head_time, sleep,
}
use sealed_auction_fce.Chain.Returned.{andthen_run}
use sealed_auction_fce.Registration.{Library, try}
use sealed_auction_fce.Utils.{MarketLibrary, prefixed}
use sealed_auction_fce.Commands.RunTest.{TestLibrary}
use sealed_auction_fce.Commands.RunTest.Flow.{wait_deadline}

-- A chain whose head is always known, and whose time grows by a second at least while the tool
-- sleeps.
pub record Advancing (out : Outside) : Type 1 where
  pub time : List Call → ℕ
  pub known : (h : List Call) → out.answer h head_time ≡ ok (time h)
  pub grows : (h : List Call) → time h + 1 ≤ time ((h ++ head_time ∷ []) ++ sleep 2 ∷ [])

module _ (lib : Library) (m : MarketLibrary) (t : TestLibrary) (out : Outside)
    (chain : Advancing out) where
  abbrev pub Over : ℕ → Result Bool × World → Type 0
  Over deadline r =
      (r.0 ≡ ok true)
      × (h : List Call) × (r.1.journal ≡ h ++ head_time ∷ [])
      × (deadline ≤ chain.time h)

  slept : (w : World) → (perform out (sleep 2) w).1.journal ≡ w.journal ++ sleep 2 ∷ []
  unfolding perform
  slept w = refl

  after_sleep :
      (deadline n : ℕ) (w : World)
      → ((v : World)
          → v.journal ≡ w.journal ++ sleep 2 ∷ []
          → Over deadline (wait_deadline lib m t out n deadline v))
      → Over deadline (try lib out (perform out (sleep 2)) (wait_deadline lib m t out n deadline) w)
  unfolding on_error
  after_sleep deadline n w h = elim (Result-cases (perform out (sleep 2) w).0) [
    | inl (u, e) ↦ rw (e, on_error) (h (perform out (sleep 2) w).1 (slept w))
    | inr (u, e) ↦ rw (e, on_error) (h (perform out (sleep 2) w).1 (slept w))
  ]

  abbrev branch : Bool → ℕ → ℕ → Act Bool
  branch b n deadline =
      if b
      then done true
      else try lib out (perform out (sleep 2)) (wait_deadline lib m t out n deadline)

  -- One query: what is done next depends on the head alone.
  query :
      (n deadline : ℕ) (w : World)
      → (v : World) × (v.journal ≡ w.journal ++ head_time ∷ [])
        × (wait_deadline lib m t out (suc n) deadline w
            ≡ branch (leb deadline (chain.time w.journal)) n deadline v)
  unfolding wait_deadline perform wrap
  query n deadline w =
      let v = (perform out head_time w).1 in
      (
        v,
        refl,
        andthen_run _ _ w v (chain.time w.journal) (
            ap (λ (r : Result ℕ). (map_err (prefixed "fetch chain head: ") r, v))
              (chain.known w.journal)),
      )

  -- A query that is early leaves the rest of the wait, after a sleep.
  from_query :
      (n deadline : ℕ) (w : World)
      → (leb deadline (chain.time w.journal) ≡ false
          → (u : World) → u.journal ≡ (w.journal ++ head_time ∷ []) ++ sleep 2 ∷ []
          → Over deadline (wait_deadline lib m t out n deadline u))
      → Over deadline (wait_deadline lib m t out (suc n) deadline w)
  from_query n deadline w rest =
      let (v, journal, went_on) = query n deadline w in
      elim (Bool-cases (leb deadline (chain.time w.journal))) [
        | inl reached ↦
            subst (Over deadline) (sym (went_on ∙ ap (λ b. branch b n deadline v) reached))
              (refl, w.journal, journal, ground (arith, reached))
        | inr early ↦
            subst (Over deadline) (sym (went_on ∙ ap (λ b. branch b n deadline v) early)) (
              after_sleep deadline n v
                (λ u slept_on. rest early u (slept_on ∙ ap (λ h. h ++ sleep 2 ∷ []) journal)))
      ]

  -- On a chain whose head is known and whose time grows while the tool sleeps, the wait ends: with
  -- more queries than there are seconds left until the deadline it returns that the deadline was
  -- reached, and the last head that it saw is not before the deadline.
  pub wait_deadline_ends :
      (n deadline : ℕ) (w : World)
      → deadline ≤ chain.time w.journal + n
      → Over deadline (wait_deadline lib m t out (suc n) deadline w)
  wait_deadline_ends zero deadline w near =
      from_query zero deadline w (λ early u journal. absurd (ground (arith, near, early)))
  wait_deadline_ends (suc n) deadline w near = from_query (suc n) deadline w (λ early u journal.
      wait_deadline_ends n deadline u
        (omega (arith, near, chain.grows w.journal, ap chain.time journal)))
