-- ===== src/Checks.antt =====
-- The checks of a deployment (tools/pkg/validate/checks.go, validate.go): what they ask of the
-- environment, and the text functions they share.
pub mod EnvFile
pub mod Deploy
pub mod Register
pub mod Services
pub mod Tee
pub mod Testing
pub mod Agree
pub mod Sound
pub mod Unique
pub mod Json
use Prim.Native.Char.{Char, code}
use Prim.Native.String.{◌++◌ as append}
use sealed_auction_fce.Prelude.{
  ℕ, zero, suc, ◌+◌, ◌-◌, ◌*◌, ◌%◌, ◌≤◌, Bool, true, false, not, ◌&&◌, ◌||◌, Option, none, some,
  List, [], ◌∷◌, ◌++◌, String, Result, ok, err, sprintf, is_empty, str_eq, leb, ◌==◌, if◌then◌else◌,
  ℤ,
}
use sealed_auction_fce.Extension.Types.{Address, Hash, Bytes}
use sealed_auction_fce.Report.{Status, CheckResult}

-- The ethclient.Client that is connected.
pub record Client : Type 0 where
  pub code_at : Address → Result Bytes
  pub balance_at : Address → Result ℤ
  pub chain_id : Result ℕ

-- The views of the registry and of the allow-list that the checks call.
pub record Registry : Type 0 where
  pub next_public_extension_id : Result ℕ
  pub instructions_sender : ℕ → Result Address
  pub is_key_type_supported : ℕ → Hash → Result Bool

pub record Allowlist : Type 0 where
  pub is_allowed_machine_owner : ℕ → Address → Result Bool

-- The process environment: variables, the lines of the file at a path (`none` when it cannot be
-- opened), whether the path does not exist, the local ports that accept a connection, the status of
-- a GET, and the quoting (`%q`) and hex spelling of values.
pub record Env : Type 0 where
  pub getenv : String → String
  pub lines_of : String → Option (List String)
  pub not_exist : String → Bool
  pub accepts : String → Bool
  pub http_status : String → Result ℕ
  pub quote : String → String
  pub address_hex : Address → String
  pub hex_to_address : String → Address
  pub evm_type : Hash

abbrev pub result_of : String → String → String → Status → String → String → CheckResult
result_of step id name status message fix = record {
  step = step;
  id = id;
  name = name;
  status = status;
  message = message;
  fix = fix;
}

-- unicode.IsSpace.
abbrev pub is_space_code : ℕ → Bool
is_space_code c =
    (leb 9 c && leb c 13)
    || c == 32
    || c == 133
    || c == 160
    || c == 5760
    || (leb 8192 c && leb c 8202)
    || c == 8232
    || c == 8233
    || c == 8239
    || c == 8287
    || c == 12288

unfoldable pub trim_left : String → String
trim_left String.[] = ""
trim_left (String.◌∷◌ c s) =
    let rest = trim_left s in if is_space_code (code c) then rest else String.◌∷◌ c s

unfoldable pub trim_right : String → String
trim_right String.[] = ""
trim_right (String.◌∷◌ c s) =
    let rest = trim_right s in
    if is_empty rest && is_space_code (code c) then "" else String.◌∷◌ c rest

-- `strings.TrimSpace`.
unfoldable pub trim_space : String → String
unfolding trim_left trim_right
trim_space s = trim_right (trim_left s)

-- `strings.SplitN(line, "=", 2)`: `none` when there is one part.
unfoldable pub split_eq : String → Option (String × String)
split_eq String.[] = none
split_eq (String.◌∷◌ c s) =
    let rest = split_eq s in
    if code c == 61
    then some ("", s)
    else elim rest [ none ↦ none | some (a, b) ↦ some (String.◌∷◌ c a, b) ]

-- `strings.HasPrefix(line, "#")`.
abbrev pub is_comment : String → Bool
is_comment String.[] = false
is_comment (String.◌∷◌ c s) = code c == 35

abbrev pub is_hex_code : ℕ → Bool
is_hex_code c = (leb 48 c && leb c 57) || (leb 97 c && leb c 102) || (leb 65 c && leb c 70)

-- Exactly `n` hex digits.
unfoldable pub hex_digits : ℕ → String → Bool
hex_digits zero String.[] = true
hex_digits zero (String.◌∷◌ c s) = false
hex_digits (suc n) String.[] = false
hex_digits (suc n) (String.◌∷◌ c s) = is_hex_code (code c) && hex_digits n s

-- `^0x[0-9a-fA-F]{n}$`.
unfoldable pub matches_hex : ℕ → String → Bool
unfolding hex_digits
matches_hex n String.[] = false
matches_hex n (String.◌∷◌ c String.[]) = false
matches_hex n (String.◌∷◌ c (String.◌∷◌ d s)) = code c == 48 && code d == 120 && hex_digits n s

-- The value of a hex digit, and `SetString(s, 16)` of hex digits.
abbrev hex_value : ℕ → ℕ
hex_value c = if leb c 57 then c - 48 else if leb c 70 then c - 55 else c - 87

abbrev pub read_hex : ℕ → String → ℕ
read_hex acc String.[] = acc
read_hex acc (String.◌∷◌ c s) = read_hex (acc * 16 + hex_value (code c)) s

-- `SetString(s[2:], 16)`.
abbrev pub hex_number : String → ℕ
hex_number String.[] = 0
hex_number (String.◌∷◌ c String.[]) = 0
hex_number (String.◌∷◌ c (String.◌∷◌ d s)) = read_hex 0 s

-- `err == nil && resp.StatusCode == http.StatusOK` of a GET of the proxy's /info.
abbrev pub reachable : Env → String → Bool
reachable env url = elim (env.http_status (append url "/info")) [
  | ok status ↦ status == 200
  | err e ↦ false
]
