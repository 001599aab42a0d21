-- ===== src/Revert.antt =====
-- Revert reasons (tools/pkg/fccutils/revert.go). An error is identified by its text; hex decoding,
-- the data of an RPC error and the ABI's decoders are parameters.
pub mod Raw
pub mod Selector
use Prim.Native.String.{◌++◌ as append}
use sealed_auction_fce.Prelude.{
  Bool, true, false, ◌&&◌, ◌||◌, Option, none, some, List, [], ◌∷◌, String, Result, ok, err, length,
  ltb, str_eq, is_empty, ◌==◌, if◌then◌else◌,
}
use sealed_auction_fce.Extension.Types.{Bytes}

-- encoding/hex, `ErrorData` of an RPC error, and abi.UnpackRevert.
pub record RevertLibrary : Type 0 where
  pub decode_hex : String → Result Bytes
  pub encode_hex : Bytes → String
  pub error_data : String → Option String
  pub unpack_revert : Bytes → Result String

-- An error that an ABI declares: its name, its four-byte selector, and its decoder, which returns
-- the values as `%v` prints them.
pub record AbiError : Type 0 where
  pub name : String
  pub selector : Bytes
  pub unpack : Bytes → Result String

-- `strings.TrimPrefix(s, "0x")`.
unfoldable pub trim_0x : String → String
trim_0x String.[] = ""
trim_0x (String.◌∷◌ c String.[]) = String.◌∷◌ c ""
trim_0x (String.◌∷◌ c (String.◌∷◌ d s)) =
    if str_eq (String.◌∷◌ c (String.◌∷◌ d "")) "0x" then s else String.◌∷◌ c (String.◌∷◌ d s)

-- The first four bytes, and the equality of byte strings.
abbrev pub first_four : Bytes → Bytes
first_four (a ∷ b ∷ c ∷ d ∷ rest) = a ∷ b ∷ c ∷ d ∷ []
first_four short = short

abbrev pub same_bytes : Bytes → Bytes → Bool
same_bytes [] [] = true
same_bytes [] (y ∷ ys) = false
same_bytes (x ∷ xs) [] = false
same_bytes (x ∷ xs) (y ∷ ys) = x == y && same_bytes xs ys

module _ (lib : RevertLibrary) where
  unfoldable pub decode_revert_hex : String → String
  decode_revert_hex hex_str = elim (lib.decode_hex (trim_0x hex_str)) [
    | err e ↦ ""
    | ok decoded ↦ if ltb (length decoded) 4 then "" else elim (lib.unpack_revert decoded) [
      | ok reason ↦ reason
      | err e ↦ append "0x" (trim_0x hex_str)
    ]
  ]

  -- `DecodeRevertReason` of an error that is not nil.
  unfoldable pub decode_revert_reason : String → String
  unfolding decode_revert_hex
  decode_revert_reason e = elim (lib.error_data e) [
    | none ↦ ""
    | some hex_str ↦ decode_revert_hex hex_str
  ]

  -- What `SimulateAndDecodeRevert` makes of the answer to its eth_call.
  unfoldable pub simulated_reason : Result Bytes → String
  unfolding decode_revert_hex decode_revert_reason
  simulated_reason (err e) =
      let reason = decode_revert_reason e in if is_empty reason then e else reason
  simulated_reason (ok result) =
      if ltb (length result) 4 then "" else decode_revert_hex (lib.encode_hex result)

  -- `decodeRevertFromError` of tools/pkg/support/support.go.
  unfoldable pub decode_revert_from_error : String → String
  decode_revert_from_error e = elim (lib.error_data e) [
    | none ↦ ""
    | some hex_str ↦ elim (lib.decode_hex (trim_0x hex_str)) [
      | err t ↦ ""
      | ok decoded ↦ elim (lib.unpack_revert decoded) [ ok reason ↦ reason | err t ↦ "" ]
    ]
  ]

  -- What `getFailingMessage` makes of the answer to its eth_call.
  unfoldable pub failing_text : Result Bytes → String
  unfolding decode_revert_from_error
  failing_text (err e) =
      let reason = decode_revert_from_error e in if is_empty reason then e else reason
  failing_text (ok result) = elim (lib.unpack_revert result) [
    | ok reason ↦ reason
    | err e ↦
        if 0 == length result then "unknown revert reason" else append "0x" (lib.encode_hex result)
  ]

  -- The text that a matching error is reported with.
  abbrev pub custom_error_text : AbiError → Bytes → String
  custom_error_text e bytes = elim (e.unpack bytes) [
    | err t ↦ e.name
    | ok arguments ↦
        if str_eq arguments "[]" || str_eq arguments "<nil>"
        then e.name
        else append e.name arguments
  ]

  unfoldable pub find_error : List AbiError → Bytes → String
  find_error [] bytes = ""
  find_error (e ∷ errors) bytes =
      let later = find_error errors bytes in
      if same_bytes (first_four e.selector) (first_four bytes)
      then custom_error_text e bytes
      else later

  -- `MatchCustomError`; the errors of the ABI are tried in the list's order.
  unfoldable pub match_custom_error : List AbiError → String → String
  unfolding find_error
  match_custom_error errors revert_hex = elim (lib.decode_hex (trim_0x revert_hex)) [
    | err e ↦ ""
    | ok bytes ↦ if ltb (length bytes) 4 then "" else find_error errors bytes
  ]
