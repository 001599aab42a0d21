-- ===== src/Report/Printed.antt =====
-- What the printed report shows (tools/pkg/validate/report.go).
use sealed_auction_fce.Prelude.{
  ℕ, ◌≡◌, ◌+◌, Bool, true, false, ◌&&◌, ◌||◌, List, [], ◌∷◌, String, str_eq, if◌then◌else◌,
}
use sealed_auction_fce.Report.{CheckResult, Report, Line, blank, totals, mem_string}

-- The results that the lines show.
abbrev pub shown : List Line → List CheckResult
shown [] = []
shown (Line.entry res details ∷ lines) = res ∷ shown lines
shown (Line.banner text ∷ lines) = shown lines
shown (Line.heading label ∷ lines) = shown lines
shown (Line.blank text ∷ lines) = shown lines
shown (Line.totals text ∷ lines) = shown lines

abbrev pub count : (CheckResult → Bool) → List CheckResult → ℕ
count p [] = 0
count p (res ∷ r) = (if p res then 1 else 0) + count p r

-- No step is listed twice.
abbrev Distinct : List String → Type 0
Distinct [] = Unit
Distinct (step ∷ steps) = (mem_string step steps ≡ false) × Distinct steps

-- Every result is at one of the steps.
abbrev Covers : List String → Report → Type 0
Covers steps [] = Unit
Covers steps (res ∷ r) = (mem_string res.step steps ≡ true) × Covers steps r

abbrev has_step : String → Report → Bool
has_step s [] = false
has_step s (res ∷ r) = str_eq s res.step || has_step s r

module _ (p : CheckResult → Bool) where
  -- The results of one step, and of a list of steps.
  abbrev at_step : String → CheckResult → Bool
  at_step step res = p res && str_eq res.step step

  abbrev in_steps : List String → CheckResult → Bool
  in_steps steps res = p res && mem_string res.step steps
