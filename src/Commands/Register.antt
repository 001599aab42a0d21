-- ===== src/Commands/Register.antt =====
-- register-tee and allow-tee-version (tools/cmd/register-tee/main.go, tools/cmd/allow-tee-version/main.go),
-- with what they read of a machine (tools/pkg/fccutils/common.go, tee_calls.go, encoding.go). Each
-- starts after `DefaultSupport`.
pub mod Versions
use sealed_auction_fce.Prelude.{
  ℕ, Bool, true, false, not, String, Result, ok, err, fail_if, is_empty, str_eq, ◌==◌,
  if◌then◌else◌,
}
use sealed_auction_fce.Extension.Types.{Address, Hash, Bytes}
use sealed_auction_fce.Chain.{
  Outside, Act, done, stop, lift, on_error, perform, is_version_supported, remove_file, ◌>>=◌, ◌>>◌,
}
use sealed_auction_fce.Registration.{Library, Support, TeeInfo, tee_info, tee_proxy_id, try}
use sealed_auction_fce.Registration.Node.{register_node}
use sealed_auction_fce.Setup.Version.{add_version}
use sealed_auction_fce.Addresses.{SupportLibrary, cut_0x, default_support}

-- The claims of an attestation token, by tee-node and go-flare-common, and the search in a text.
pub record ClaimLibrary : Type 1 where
  pub Claims : Type 0
  pub parse_claims : String → Result Claims
  pub code_hash : Claims → Result Hash
  pub platform : Claims → Result Hash
  pub has_text : String → String → Bool

-- `TeeCodeHash` and `TestPlatform`, of a simulated TEE.
abbrev pub tee_code_hash : Hash
tee_code_hash = 0x194844cf417dde867073e5ab7199fa4d21fd82b5dbe2bdea8b3d7fc18d10fdc2

abbrev pub test_platform : Hash
test_platform = 0x544553545f504c4154464f524d00000000000000000000000000000000000000

module _ (lib : Library) (l : SupportLibrary) (c : ClaimLibrary) where
  -- `CodeHashAndPlatform`.
  unfoldable pub code_hash_and_platform : String → Result (Hash × Hash)
  code_hash_and_platform attestation = elim (c.parse_claims attestation) [
    | err e ↦ err e
    | ok claims ↦ elim (c.code_hash claims) [
      | err e ↦ err e
      | ok code_hash ↦ elim (c.platform claims) [
        | err e ↦ err e
        | ok platform ↦ ok (code_hash, platform)
      ]
    ]
  ]

  -- The hashes that a machine must report: fixed ones when it is simulated, else those of its token.
  unfoldable pub expected_hashes : TeeInfo → Result (Hash × Hash)
  expected_hashes info =
      if str_eq (l.getenv "SIMULATED_TEE") "true"
      then ok (tee_code_hash, test_platform)
      else code_hash_and_platform info.attestation

  -- `GetCodeHashAndPlatform`.
  unfoldable pub get_code_hash_and_platform : TeeInfo → Result (Hash × Hash)
  get_code_hash_and_platform info = elim (expected_hashes info) [
    | err e ↦ err e
    | ok (code_hash, platform) ↦
        if not (code_hash == info.machine_data.code_hash)
        then err "code hashes do not match"
        else if not (platform == info.machine_data.platform)
        then err "platforms do not match"
        else ok (code_hash, platform)
  ]

  -- The key of EXTENSION_OWNER_KEY, or that of the support.
  unfoldable pub owner_key : Support → Result ℕ
  owner_key s =
      let text = l.getenv "EXTENSION_OWNER_KEY" in
      if is_empty text then ok s.prv else l.hex_to_ecdsa (cut_0x l text)

  module _ (out : Outside) where
    -- `GetTeeProxyID`.
    unfoldable pub get_tee_proxy_id : String → Act (Address × Address)
    get_tee_proxy_id proxy_url = do info ← tee_info lib out proxy_url; lift (tee_proxy_id lib info)

    -- A fresh start removes the state file, whose error is only logged.
    unfoldable pub fresh_start : Bool → Act (Unit {0})
    fresh_start resume = if resume then done tt else try lib out (perform out remove_file) (done tt)

    -- register-tee after `DefaultSupport`, which comes after the fresh start.
    unfoldable pub register_tee :
        Support → String → String → String → String → String → Act (Unit {0})
    register_tee s proxy_url host_flag ftdc_url command id_text = do
      info ← tee_info lib out proxy_url
      ids ← lift (tee_proxy_id lib info)
      ftdc ← get_tee_proxy_id ftdc_url
      hashes ← lift (get_code_hash_and_platform info)
      let host_url = if is_empty host_flag then proxy_url else host_flag
      register_node lib out s info host_url ftdc_url ftdc.0 command id_text

    -- The whole of register-tee.
    unfoldable pub register_tee_main :
        Bool → String → String → String → String → String → String → String → Act (Unit {0})
    register_tee_main resume addresses_path node_url proxy_url host_flag ftdc_url command id_text =
        do
          fresh_start resume
          opened ← default_support l out addresses_path node_url
          register_tee opened.0 proxy_url host_flag ftdc_url command id_text

    -- A version that exists already is no error.
    unfoldable pub add_new_version : Support → ℕ → TeeInfo → Bytes → Act (Unit {0})
    add_new_version s key info version =
        on_error
          (add_version lib out s key info.machine_data.extension_id info.machine_data.code_hash
            info.machine_data.platform version)
          (λ e. if c.has_text e "VersionAlreadyExists" then done tt else stop e) (λ u. done tt)

    -- allow-tee-version after `DefaultSupport`.
    unfoldable pub allow_tee_version : Support → String → Bytes → Act (Unit {0})
    allow_tee_version s proxy_url version = do
      info ← tee_info lib out proxy_url
      key ← lift (owner_key s)
      ids ← lift (tee_proxy_id lib info)
      supported ← perform out (
          is_version_supported info.machine_data.extension_id info.machine_data.code_hash
            info.machine_data.platform)
      if supported then done tt else add_new_version s key info version
