-- ===== src/Report.antt =====
-- The report of the deployment checks (tools/pkg/validate/report.go). What is written to the writer is
-- a list of parts, each with its texts.
pub mod Counts
pub mod Printed
use sealed_auction_fce.Prelude.{
  ℕ, ◌+◌, Bool, true, false, not, ◌||◌, Option, none, some, List, [], ◌∷◌, ◌++◌, String, sprintf,
  is_empty, to_string, pos, str_eq, if◌then◌else◌,
}

-- `Status`; the four constants.
pub data Status : Type 0 where
  pass warn fail skip : Status

abbrev pub status_string : Status → String
status_string pass = "PASS"
status_string warn = "WARN"
status_string fail = "FAIL"
status_string skip = "SKIP"

pub record CheckResult : Type 0 where
  pub step : String
  pub id : String
  pub name : String
  pub status : Status
  pub message : String
  pub fix : String

-- `Report`, its `Results`.
abbrev pub Report : Type 0
Report = List CheckResult

-- `Add`.
unfoldable pub add : Report → CheckResult → Report
add r result = r ++ result ∷ []

abbrev pub is_fail : Status → Bool
is_fail fail = true
is_fail _ = false

unfoldable pub has_failures : Report → Bool
has_failures [] = false
has_failures (res ∷ r) = if is_fail res.status then true else has_failures r

-- The four counters of `Summary`.
abbrev pub Tally : Type 0
Tally = record { passed : ℕ; warning : ℕ; failed : ℕ; skipped : ℕ }

abbrev pub no_tally : Tally
no_tally = record { passed = 0; warning = 0; failed = 0; skipped = 0 }

unfoldable pub count_one : Status → Tally → Tally
count_one pass t = record {
  passed = t.passed + 1;
  warning = t.warning;
  failed = t.failed;
  skipped = t.skipped;
}
count_one warn t = record {
  passed = t.passed;
  warning = t.warning + 1;
  failed = t.failed;
  skipped = t.skipped;
}
count_one fail t = record {
  passed = t.passed;
  warning = t.warning;
  failed = t.failed + 1;
  skipped = t.skipped;
}
count_one skip t = record {
  passed = t.passed;
  warning = t.warning;
  failed = t.failed;
  skipped = t.skipped + 1;
}

unfoldable pub tally : Report → Tally → Tally
unfolding count_one
tally [] t = t
tally (res ∷ r) t = tally r (count_one res.status t)

unfoldable pub summary : Report → String
unfolding tally
summary r =
    let t = tally r no_tally in
    sprintf (
      to_string (pos t.passed)
      ∷ " passed, "
      ∷ to_string (pos t.warning)
      ∷ " warning, "
      ∷ to_string (pos t.failed)
      ∷ " failed, "
      ∷ to_string (pos t.skipped)
      ∷ " skipped"
      ∷ [])

-- `stepLabel`; "" is the value for a missing key.
unfoldable pub step_label : String → String
step_label step =
    if str_eq step "deploy"
    then "Contract Deployment"
    else if str_eq step "register"
    then "Extension Registration"
    else if str_eq step "services"
    then "Service Startup"
    else if str_eq step "tee-version"
    then "TEE Version Registration"
    else if str_eq step "tee-machine"
    then "TEE Machine Registration"
    else if str_eq step "test"
    then "Testing"
    else ""

abbrev pub escape : String → String
escape code = sprintf ("\u{1b}[" ∷ code ∷ "m" ∷ [])

abbrev pub status_color : Status → String
status_color pass = escape "32"
status_color warn = escape "33"
status_color fail = escape "31"
status_color skip = escape "90"

abbrev pub mem_string : String → List String → Bool
mem_string s [] = false
mem_string s (t ∷ ts) = str_eq s t || mem_string s ts

-- The steps in order of first appearance; `seen` is the set of the ones met so far.
unfoldable pub unique_steps : Report → List String → List String
unique_steps [] seen = []
unique_steps (res ∷ r) seen =
    let again = unique_steps r seen in
    let first = res.step ∷ unique_steps r (res.step ∷ seen) in
    if mem_string res.step seen then again else first

-- A part of the printed report, with the text that is written; `entry` has the result that its texts
-- (of the result, its message and its fix) are about.
pub data Line : Type 0 where
  banner : String → Line
  heading : String → Line
  entry : CheckResult → List String → Line
  blank : String → Line
  totals : String → Line

abbrev detail : String → String → List String
detail lead s = if is_empty s then [] else (sprintf (lead ∷ s ∷ "\n" ∷ []) ∷ [])

abbrev pub shows_details : Status → Bool
shows_details fail = true
shows_details warn = true
shows_details _ = false

unfoldable pub entry_of : CheckResult → Line
entry_of res =
    let first = sprintf (
      "  "
      ∷ status_color res.status
      ∷ "["
      ∷ status_string res.status
      ∷ "]"
      ∷ escape "0"
      ∷ " "
      ∷ res.id
      ∷ "  "
      ∷ res.name
      ∷ "\n"
      ∷ []) in
    let details : List String =
      if shows_details res.status
      then detail "         " res.message ++ detail "         Fix: " res.fix
      else [] in
    entry res (first ∷ details)

unfoldable pub entries : String → Report → List Line
unfolding entry_of
entries step [] = []
entries step (res ∷ r) =
    let rest = entries step r in if str_eq res.step step then entry_of res ∷ rest else rest

unfoldable pub sections : List String → Report → List Line
unfolding entries step_label
sections [] r = []
sections (step ∷ steps) r =
    let label = step_label step in
    heading (sprintf ((if is_empty label then step else label) ∷ ":\n" ∷ [])) ∷ entries step r
    ++ (blank "\n" ∷ sections steps r)

abbrev banner_text : String
banner_text =
    sprintf
      ("\n" ∷ escape "36" ∷ "=== Deployment Verification Report ===" ∷ escape "0" ∷ "\n\n" ∷ [])

-- `Fprint`.
unfoldable pub fprint : Report → List Line
unfolding sections unique_steps summary
fprint r =
    banner banner_text ∷ sections (unique_steps r []) r
    ++ totals (sprintf (summary r ∷ "\n" ∷ [])) ∷ []
