-- ===== src/Commands/Govern.antt =====
-- set-governance (tools/cmd/set-governance/main.go), after `DefaultSupport`.
pub mod Chosen
use sealed_auction_fce.Prelude.{
  ℕ, Bool, List, [], ◌∷◌, String, Result, ok, err, is_empty, ltb, if◌then◌else◌,
}
use sealed_auction_fce.Extension.Types.{Address}
use sealed_auction_fce.Revert.{trim_0x}
use sealed_auction_fce.Chain.{Outside, Act, lift, ◌>>=◌, ◌>>◌}
use sealed_auction_fce.Registration.{Library, Support, TeeInfo, tee_info}
use sealed_auction_fce.Setup.{set_tee_governance}
use sealed_auction_fce.Checks.{trim_space}
use sealed_auction_fce.Addresses.{SupportLibrary}
use sealed_auction_fce.Commands.Verify.{split_comma}
use Prim.Native.Char.{Char}
use sealed_auction_fce.Prelude.{str_eq}

-- `strings.TrimPrefix(s, "0X")`.
unfoldable pub trim_0X : String → String
trim_0X String.[] = ""
trim_0X (String.◌∷◌ c String.[]) = String.◌∷◌ c ""
trim_0X (String.◌∷◌ c (String.◌∷◌ d s)) =
    if str_eq (String.◌∷◌ c (String.◌∷◌ d "")) "0X" then s else String.◌∷◌ c (String.◌∷◌ d s)

module _ (l : SupportLibrary) (parse_uint : String → Result ℕ) where
  -- The addresses of the parts that are not blank.
  unfoldable pub signers_in : List String → List Address
  signers_in [] = []
  signers_in (part ∷ parts) =
      let rest = signers_in parts in
      if is_empty (trim_space part) then rest else l.hex_to_address (trim_space part) ∷ rest

  abbrev pub or_fallback : List Address → Address → List Address
  or_fallback [] fallback = fallback ∷ []
  or_fallback (a ∷ signers) fallback = a ∷ signers

  -- `parseSigners`.
  unfoldable pub parse_signers : String → Address → List Address
  parse_signers raw fallback = or_fallback (signers_in (split_comma raw)) fallback

  -- `parseThreshold`; `parse_uint` is strconv.ParseUint in base 10 with 64 bits.
  unfoldable pub parse_threshold : String → ℕ
  parse_threshold raw = elim (parse_uint (trim_space raw)) [
    | err e ↦ 1
    | ok v ↦ if ltb 0 v then v else 1
  ]

  unfoldable pub governance_key : Support → Result ℕ
  governance_key s =
      let text = l.getenv "EXTENSION_OWNER_KEY" in
      if is_empty text then ok s.prv else l.hex_to_ecdsa (trim_0X (trim_0x text))

  unfoldable pub default_signer : Address → Address
  default_signer deployer =
      let owner = trim_space (l.getenv "INITIAL_OWNER") in
      if is_empty owner then deployer else l.hex_to_address owner

  module _ (lib : Library) (out : Outside) where
    unfoldable pub set_governance_of : Support → String → Act (Unit {0})
    set_governance_of s proxy_url = do
      key ← lift (governance_key s)
      info ← tee_info lib out proxy_url
      set_tee_governance lib out s key info.machine_data.extension_id
          (parse_signers (l.getenv "GOVERNANCE_SIGNERS") (default_signer (lib.key_address key)))
          (parse_threshold (l.getenv "GOVERNANCE_THRESHOLD"))
