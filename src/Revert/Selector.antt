-- ===== src/Revert/Selector.antt =====
-- The matching of revert data against the errors of several contracts (tools/pkg/fccutils/diag.go and
-- `replayAddTeeVersion` of tools/cmd/audit-deploy/main.go). What is returned is the line that is
-- logged or printed.
use sealed_auction_fce.Prelude.{
  Option, none, some, List, [], ◌∷◌, String, Result, ok, err, sprintf, if◌then◌else◌,
}
use sealed_auction_fce.Extension.Types.{Bytes}
use sealed_auction_fce.Revert.{RevertLibrary, AbiError, first_four, same_bytes}

-- The data of an RPC error, as rpc.DataError gives it: a text, bytes, or something else.
pub data ErrorData : Type 0 where
  text : String → ErrorData
  raw : Bytes → ErrorData
  other : ErrorData

-- `ExtractRevertData` of an error that is not nil; the data is none when the error is no
-- rpc.DataError. `from_hex` is common.FromHex.
unfoldable pub extract_revert_data : (String → Bytes) → Option ErrorData → Bytes
extract_revert_data from_hex none = []
extract_revert_data from_hex (some (text d)) = from_hex d
extract_revert_data from_hex (some (raw d)) = d
extract_revert_data from_hex (some other) = []

-- A contract whose errors are searched; its ABI may fail to load.
pub record ErrorSource : Type 0 where
  pub source_name : String
  pub abi : Result (List AbiError)

-- The selector of Error(string).
abbrev pub error_string_selector : Bytes
error_string_selector = 0x08 ∷ 0xc3 ∷ 0x79 ∷ 0xa0 ∷ []

-- The lines that a caller prints: for a reason, for a declared error whose values were decoded or
-- were not, and for a selector of no known error.
pub record Wording : Type 0 where
  pub reason : String → String
  pub decoded : (source error arguments : String) → String
  pub undecoded : (source error failure data_hex : String) → String
  pub unknown : (selector_hex data_hex : String) → String

-- The wording of `replayAddTeeVersion`; `quote` is the verb %q.
abbrev pub audit_wording : (quote : String → String) → Wording
audit_wording quote = record {
  reason = λ text. sprintf ("revert reason (string): " ∷ quote text ∷ []);
  decoded =
      λ source error arguments. sprintf ("revert -> " ∷ source ∷ "." ∷ error ∷ arguments ∷ []);
  undecoded = λ source error failure data_hex. sprintf (
      "revert -> " ∷ source ∷ "." ∷ error ∷ " (unpack failed: " ∷ failure ∷ ") data=0x" ∷ data_hex
      ∷ []);
  unknown = λ selector_hex data_hex.
      sprintf
        ("revert with unknown selector 0x" ∷ selector_hex ∷ " (full: 0x" ∷ data_hex ∷ ")" ∷ []);
}

-- The wording of `diagAvailabilityCheckRevert`.
abbrev pub diagnosis_wording : (quote : String → String) → Wording
diagnosis_wording quote = record {
  reason = λ text. sprintf ("diag: revert reason (string): " ∷ quote text ∷ []);
  decoded = λ source error arguments.
      sprintf ("diag: revert -> " ∷ source ∷ "." ∷ error ∷ "(" ∷ arguments ∷ ")" ∷ []);
  undecoded = λ source error failure data_hex. sprintf (
      "diag: revert -> " ∷ source ∷ "." ∷ error ∷ " (arg unpack failed: " ∷ failure ∷ ") data=0x"
      ∷ data_hex ∷ []);
  unknown = λ selector_hex data_hex.
      sprintf (
        "diag: revert with unknown selector 0x" ∷ selector_hex ∷ "; full data: 0x" ∷ data_hex ∷ []);
}

module _ (lib : RevertLibrary) (wording : Wording) where
  -- The line for a declared error; `unpack` is of the whole data, its selector included.
  abbrev matched_line : String → AbiError → Bytes → String
  matched_line source_name e data_bytes = elim (e.unpack data_bytes) [
    | err t ↦ wording.undecoded source_name e.name t (lib.encode_hex data_bytes)
    | ok arguments ↦ wording.decoded source_name e.name arguments
  ]

  unfoldable pub find_in : String → List AbiError → Bytes → Option String
  find_in source_name [] data_bytes = none
  find_in source_name (e ∷ errors) data_bytes =
      let later = find_in source_name errors data_bytes in
      if same_bytes (first_four e.selector) (first_four data_bytes)
      then some (matched_line source_name e data_bytes)
      else later

  unfoldable pub find_source : List ErrorSource → Bytes → String
  find_source [] data_bytes =
      wording.unknown (lib.encode_hex (first_four data_bytes)) (lib.encode_hex data_bytes)
  find_source (src ∷ sources) data_bytes = elim src.abi [
    | err e ↦ find_source sources data_bytes
    | ok errors ↦ elim (find_in src.source_name errors data_bytes) [
      | some line ↦ line
      | none ↦ find_source sources data_bytes
    ]
  ]

  -- What is said of revert data of four bytes at least.
  unfoldable pub explain : List ErrorSource → Bytes → String
  explain sources data_bytes =
      if same_bytes (first_four data_bytes) error_string_selector
      then elim (lib.unpack_revert data_bytes) [
        | ok reason ↦ wording.reason reason
        | err e ↦ find_source sources data_bytes
      ]
      else find_source sources data_bytes

-- What a caller needs of other libraries to explain the error of a call: the data of an RPC error,
-- common.FromHex, the verb %q, and the errors of the contracts' ABIs, when they load, but for MachineManager's.
pub record Diagnosis : Type 0 where
  pub payload : String → Option ErrorData
  pub from_hex : String → Bytes
  pub quote : String → String
  pub verification_abi : Result (List AbiError)
  pub fdc2_hub_abi : Result (List AbiError)
  pub extension_manager_abi : Result (List AbiError)

-- The contracts whose errors `diagAvailabilityCheckRevert` searches.
unfoldable pub diagnosis_sources : Diagnosis → Result (List AbiError) → List ErrorSource
diagnosis_sources d machine_manager =
    record { source_name = "Verification"; abi = d.verification_abi }
    ∷ record { source_name = "Fdc2Hub"; abi = d.fdc2_hub_abi }
    ∷ record { source_name = "MachineManager"; abi = machine_manager }
    ∷ record { source_name = "ExtensionManager"; abi = d.extension_manager_abi }
    ∷ []

-- The contracts whose errors `replayAddTeeVersion` searches.
unfoldable pub audit_sources : Diagnosis → Result (List AbiError) → List ErrorSource
audit_sources d machine_manager =
    record { source_name = "ExtensionManager"; abi = d.extension_manager_abi }
    ∷ record { source_name = "MachineManager"; abi = machine_manager }
    ∷ record { source_name = "Verification"; abi = d.verification_abi }
    ∷ []
