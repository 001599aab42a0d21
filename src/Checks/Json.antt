-- ===== src/Checks/Json.antt =====
-- The JSON form of the report (`FprintJSON`, tools/pkg/validate/report.go); the encoding of the
-- structure is that of encoding/json.
use sealed_auction_fce.Prelude.{List, [], ◌∷◌, String}
use sealed_auction_fce.Checks.{trim_space}
use sealed_auction_fce.Report.{CheckResult, Report, status_string, summary}

pub record JsonResult : Type 0 where
  pub step : String
  pub id : String
  pub name : String
  pub status : String
  pub message : String
  pub fix : String

pub record JsonReport : Type 0 where
  pub results : List JsonResult
  pub summary_text : String

unfoldable pub json_result : CheckResult → JsonResult
json_result res = record {
  step = res.step;
  id = res.id;
  name = res.name;
  status = status_string res.status;
  message = trim_space res.message;
  fix = trim_space res.fix;
}

unfoldable pub json_results : Report → List JsonResult
json_results [] = []
json_results (res ∷ r) = json_result res ∷ json_results r

unfoldable pub json_report : Report → JsonReport
json_report r = record { results = json_results r; summary_text = summary r }
