-- ===== src/Report/Counts.antt =====
-- The counters of the report and its failures (tools/pkg/validate/report.go).
use sealed_auction_fce.Prelude.{
  ℕ, ◌≡◌, ◌+◌, refl, ap, ◌∙◌, Bool, true, false, [], ◌∷◌, length, ltb, if◌then◌else◌, arith,
}
use sealed_auction_fce.Report.{
  Status, Report, Tally, no_tally, count_one, tally, is_fail, has_failures,
}

-- The results with a status, counted one by one.
abbrev pub same_status : Status → Status → Bool
same_status Status.pass Status.pass = true
same_status Status.warn Status.warn = true
same_status Status.fail Status.fail = true
same_status Status.skip Status.skip = true
same_status a b = false

abbrev pub count_status : Status → Report → ℕ
count_status s [] = 0
count_status s (res ∷ r) = (if same_status res.status s then 1 else 0) + count_status s r

-- The counters that a tally adds up to.
abbrev Counters : Tally → Tally → Report → Type 0
Counters t u r =
    (u.passed ≡ t.passed + count_status Status.pass r)
    × (u.warning ≡ t.warning + count_status Status.warn r)
    × (u.failed ≡ t.failed + count_status Status.fail r)
    × (u.skipped ≡ t.skipped + count_status Status.skip r)

tally_step :
    (s : Status) (t : Tally) (r : Report)
    → Counters (count_one s t) (tally r (count_one s t)) r
    → let u = tally r (count_one s t) in
      (u.passed
        ≡ t.passed + ((if same_status s Status.pass then 1 else 0) + count_status Status.pass r))
      × (u.warning
          ≡ t.warning + ((if same_status s Status.warn then 1 else 0) + count_status Status.warn r))
      × (u.failed
          ≡ t.failed + ((if same_status s Status.fail then 1 else 0) + count_status Status.fail r))
      × (u.skipped
          ≡ t.skipped + ((if same_status s Status.skip then 1 else 0) + count_status Status.skip r))
unfolding count_one
tally_step Status.pass t r (p, w, f, s) =
    (omega (arith, p), omega (arith, w), omega (arith, f), omega (arith, s))
tally_step Status.warn t r (p, w, f, s) =
    (omega (arith, p), omega (arith, w), omega (arith, f), omega (arith, s))
tally_step Status.fail t r (p, w, f, s) =
    (omega (arith, p), omega (arith, w), omega (arith, f), omega (arith, s))
tally_step Status.skip t r (p, w, f, s) =
    (omega (arith, p), omega (arith, w), omega (arith, f), omega (arith, s))

tally-Counters : (r : Report) (t : Tally) → Counters t (tally r t) r
unfolding tally count_one
tally-Counters [] t = (omega arith, omega arith, omega arith, omega arith)
tally-Counters (res ∷ r) t = tally_step res.status t r (tally-Counters r (count_one res.status t))

fails_step :
    (s : Status) (r : Report)
    → has_failures r ≡ ltb 0 (count_status Status.fail r)
    → (if is_fail s then true else has_failures r)
      ≡ ltb 0 ((if same_status s Status.fail then 1 else 0) + count_status Status.fail r)
fails_step Status.pass r h = ground (arith, h)
fails_step Status.warn r h = ground (arith, h)
fails_step Status.fail r h = ground (arith)
fails_step Status.skip r h = ground (arith, h)

-- The failures are the results with status FAIL.
has_failures-count : (r : Report) → has_failures r ≡ ltb 0 (count_status Status.fail r)
unfolding has_failures
has_failures-count [] = refl
has_failures-count (res ∷ r) = fails_step res.status r (has_failures-count r)

total_step :
    (s : Status) (r : Report)
    → count_status Status.pass r
        + count_status Status.warn r
        + count_status Status.fail r
        + count_status Status.skip r
      ≡ length r
    → (if same_status s Status.pass then 1 else 0)
        + count_status Status.pass r
        + ((if same_status s Status.warn then 1 else 0) + count_status Status.warn r)
        + ((if same_status s Status.fail then 1 else 0) + count_status Status.fail r)
        + ((if same_status s Status.skip then 1 else 0) + count_status Status.skip r)
      ≡ length r + 1
total_step Status.pass r h = omega (arith, h)
total_step Status.warn r h = omega (arith, h)
total_step Status.fail r h = omega (arith, h)
total_step Status.skip r h = omega (arith, h)

total :
    (r : Report)
    → count_status Status.pass r
        + count_status Status.warn r
        + count_status Status.fail r
        + count_status Status.skip r
      ≡ length r
total [] = omega arith
total (res ∷ r) = omega (arith, total_step res.status r (total r))

-- The four counters of `Summary` are the numbers of results with each status, they add up to the
-- number of results, and `HasFailures` holds exactly when the third is not 0.
pub summary_counts :
    (r : Report)
    → let t = tally r no_tally in
      (t.passed ≡ count_status Status.pass r)
      × (t.warning ≡ count_status Status.warn r)
      × (t.failed ≡ count_status Status.fail r)
      × (t.skipped ≡ count_status Status.skip r)
      × (t.passed + t.warning + t.failed + t.skipped ≡ length r)
      × (has_failures r ≡ ltb 0 t.failed)
summary_counts r =
    let (p, w, f, s) = tally-Counters r no_tally in
    let failures : count_status Status.fail r ≡ (tally r no_tally).failed = omega (arith, f) in
    (
      omega (arith, p),
      omega (arith, w),
      omega (arith, f),
      omega (arith, s),
      omega (arith, p, w, f, s, total r),
      has_failures-count r ∙ ap (λ n. ltb 0 n) failures,
    )
