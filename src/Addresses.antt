-- ===== src/Addresses.antt =====
-- The support of the tools (tools/pkg/support/support.go, tools/pkg/configs/configs.go): the
-- addresses file, the private key, and the bindings.
pub mod Last
use sealed_auction_fce.Prelude.{
  ℕ, Bool, true, false, ◌||◌, Option, none, some, List, [], ◌∷◌, String, Result, ok, err, is_empty,
  str_eq, if◌then◌else◌, map_get, map_set,
}
use sealed_auction_fce.Extension.Types.{Address, Bytes}
use sealed_auction_fce.Chain.{
  Outside, Act, done, lift, perform, chain_id, read_path, dial, ◌>>=◌, ◌>>◌, on_error,
}
use sealed_auction_fce.Registration.{Support}

pub record Addresses : Type 0 where
  pub flare_system_manager : Address
  pub fdc2_hub : Address
  pub flare_tee_manager : Address

-- The zero value.
abbrev pub no_addresses : Addresses
no_addresses = record { flare_system_manager = 0; fdc2_hub = 0; flare_tee_manager = 0 }

pub record RawContract : Type 0 where
  pub name : String
  pub contract_name : String
  pub address : String

-- The fields of `Addresses`; a pointer to one of them is its name.
pub data Field : Type 0 where
  flare_system_manager_field fdc2_hub_field flare_tee_manager_field : Field

-- The contracts that are bound.
pub data Binding : Type 0 where
  machine_manager wallet_manager wallet_key_manager wallet_project_manager flare_systems_manager :
      Binding
  fdc2_hub_binding verification extension_manager owner_allowlist extension_governance : Binding

-- The functions of go-ethereum, godotenv and encoding/json that are called, and the environment
-- after the .env file was loaded.
pub record SupportLibrary : Type 0 where
  pub getenv : String → String
  pub hex_to_address : String → Address
  pub hex_to_ecdsa : String → Result ℕ
  pub unmarshal_addresses : Bytes → Result Addresses
  pub unmarshal_contracts : Bytes → Result (List RawContract)
  pub bind : Binding → Address → Result (Unit {0})

-- `*dest = address`.
unfoldable pub assign_field : Addresses → Field → Address → Addresses
assign_field addrs Field.flare_system_manager_field a = record addrs { flare_system_manager = a }
assign_field addrs Field.fdc2_hub_field a = record addrs { fdc2_hub = a }
assign_field addrs Field.flare_tee_manager_field a = record addrs { flare_tee_manager = a }

-- The JSON tag and the name of each field, in the order of the struct.
abbrev pub struct_fields : List (String × String × Field)
struct_fields =
    ("FlareSystemsManager", "FlareSystemManager", Field.flare_system_manager_field)
    ∷ ("Fdc2Hub", "Fdc2Hub", Field.fdc2_hub_field)
    ∷ ("FlareTeeManager", "FlareTeeManager", Field.flare_tee_manager_field)
    ∷ []

-- The key of a field: its tag, or its name when the tag says nothing.
unfoldable pub key_of : String → String → String
key_of tag name = if is_empty tag || str_eq tag "-" then name else tag

-- The loop of `fieldMap`; every field is an address.
unfoldable pub field_loop :
    List (String × String × Field) → List (String × Field) → List (String × Field)
field_loop [] out = out
field_loop ((tag, name, field) ∷ fields) out =
    field_loop fields (map_set out (key_of tag name) field)

-- `fieldMap`.
unfoldable pub field_map : List (String × Field)
unfolding field_loop key_of map_set
field_map = field_loop struct_fields []

module _ (l : SupportLibrary) where
  -- The loop of `ParseAddresses`.
  unfoldable pub assign_all : List (String × Field) → List RawContract → Addresses → Addresses
  assign_all targets [] addrs = addrs
  assign_all targets (c ∷ raw) addrs = elim (map_get targets c.name) [
    | none ↦ assign_all targets raw addrs
    | some dest ↦ assign_all targets raw (assign_field addrs dest (l.hex_to_address c.address))
  ]

  -- `ParseAddresses` after the file is read.
  unfoldable pub addresses_in : List RawContract → Addresses
  addresses_in raw = assign_all field_map raw no_addresses

  -- `strings.HasPrefix(s, "0x") || strings.HasPrefix(s, "0X")`, and the cut of two bytes.
  unfoldable pub cut_0x : String → String
  cut_0x String.[] = ""
  cut_0x (String.◌∷◌ c String.[]) = String.◌∷◌ c ""
  cut_0x (String.◌∷◌ c (String.◌∷◌ d s)) =
      let two = String.◌∷◌ c (String.◌∷◌ d "") in
      if str_eq two "0x" || str_eq two "0X" then s else String.◌∷◌ c (String.◌∷◌ d s)

  -- `configs.PrvWithFunds`, the key of the local chains.
  abbrev prv_with_funds : ℕ
  prv_with_funds = 0x804b01a8c27a65cc694a867be76edae3ccce7a7161cda1f67a8349df696d2207

  -- `DefaultPrivateKey`.
  unfoldable pub default_private_key : Result ℕ
  default_private_key =
      let text = l.getenv "DEPLOYMENT_PRIVATE_KEY" in
      if is_empty text then ok prv_with_funds else l.hex_to_ecdsa (cut_0x text)

  module _ (out : Outside) where
    -- `ParseAddresses`.
    unfoldable pub parse_addresses : String → Act Addresses
    parse_addresses path = do
      content ← perform out (read_path path)
      raw ← lift (l.unmarshal_contracts content)
      done (addresses_in raw)

    -- `ReadAddresses` into an `Addresses`.
    unfoldable pub read_addresses : String → Act Addresses
    read_addresses path = do
      content ← perform out (read_path path)
      lift (l.unmarshal_addresses content)

    -- `NewSupport`.
    unfoldable pub new_support : ℕ → Addresses → Act (Support × Addresses)
    new_support prv addrs = do
      let diamond = addrs.flare_tee_manager
      lift (l.bind Binding.machine_manager diamond)
      lift (l.bind Binding.wallet_manager diamond)
      lift (l.bind Binding.wallet_key_manager diamond)
      lift (l.bind Binding.wallet_project_manager diamond)
      lift (l.bind Binding.flare_systems_manager addrs.flare_system_manager)
      lift (l.bind Binding.fdc2_hub_binding addrs.fdc2_hub)
      lift (l.bind Binding.verification diamond)
      lift (l.bind Binding.extension_manager diamond)
      lift (l.bind Binding.owner_allowlist diamond)
      lift (l.bind Binding.extension_governance diamond)
      id ← perform out chain_id
      done (record { prv = prv; chain_id = id }, addrs)

    -- `DefaultSupport`.
    unfoldable pub default_support : String → String → Act (Support × Addresses)
    default_support addresses_path node_url = do
      addrs ←
          on_error (read_addresses addresses_path) (λ e. parse_addresses addresses_path)
            (λ read. done read)
      perform out (dial node_url)
      prv ← lift default_private_key
      new_support prv addrs
