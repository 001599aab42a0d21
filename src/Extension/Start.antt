-- ===== src/Extension/Start.antt =====
-- What the entry points of the extension compute from the environment (go/cmd/docker/main.go,
-- go/cmd/start-tee/main.go).
use sealed_auction_fce.Prelude.{
  ℕ, Option, none, some, String, ℤ, Result, ok, err, ◌||◌, str_eq, is_empty, if◌then◌else◌,
}
use sealed_auction_fce.Extension.Types.{Address}

-- The environment, strconv.Atoi, and the keys and addresses of go-ethereum.
pub record StartLibrary : Type 0 where
  pub getenv : String → String
  pub atoi : String → Result ℤ
  pub hex_to_ecdsa : String → Result ℕ
  pub key_address : ℕ → Address
  pub address_string : Address → String
  pub hex_to_address : String → Address

module _ (l : StartLibrary) where
  -- `intEnv`.
  unfoldable pub int_env : String → ℤ → ℤ
  int_env key fallback = elim (l.atoi (l.getenv key)) [ ok v ↦ v | err e ↦ fallback ]

  -- The key's text without "0x" or "0X" before it.
  unfoldable pub key_digits : String → String
  key_digits String.[] = ""
  key_digits (String.◌∷◌ c String.[]) = String.◌∷◌ c ""
  key_digits (String.◌∷◌ c (String.◌∷◌ d s)) =
      let two = String.◌∷◌ c (String.◌∷◌ d "") in
      if str_eq two "0x" || str_eq two "0X" then s else String.◌∷◌ c (String.◌∷◌ d s)

  -- The key whose address becomes the owner; a key that does not parse ends the process.
  unfoldable pub start_key : Result ℕ
  start_key =
      if is_empty (l.getenv "DEPLOYMENT_PRIVATE_KEY")
      then l.hex_to_ecdsa "804b01a8c27a65cc694a867be76edae3ccce7a7161cda1f67a8349df696d2207"
      else l.hex_to_ecdsa (key_digits (l.getenv "DEPLOYMENT_PRIVATE_KEY"))

  -- `setOwnerAddress`: what INITIAL_OWNER is set to, when it is set, and the address returned.
  unfoldable pub set_owner_address : Result (Option String × Address)
  set_owner_address =
      let owner = l.getenv "INITIAL_OWNER" in
      if is_empty owner
      then elim start_key [
        | err e ↦ err e
        | ok key ↦ ok (some (l.address_string (l.key_address key)), l.hex_to_address owner)
      ]
      else ok (none, l.hex_to_address owner)
