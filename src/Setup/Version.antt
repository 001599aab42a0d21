-- ===== src/Setup/Version.antt =====
-- `AddTeeVersion` and `StringToBytes32` (tools/pkg/fccutils/registration.go).
use sealed_auction_fce.Prelude.{
  ℕ, ◌-◌, [], ◌∷◌, ◌++◌, Result, ok, err, length, ltb, sprintf, if◌then◌else◌,
}
use sealed_auction_fce.Extension.Types.{Hash, Bytes}
use sealed_auction_fce.Chain.{
  Outside, Act, done, lift, wrap, perform, check_tx, send, add_tee_version, ◌>>=◌, ◌>>◌,
}
use sealed_auction_fce.Registration.{Library, Support}

abbrev pub zeros : ℕ → Bytes
zeros ℕ.zero = []
zeros (ℕ.suc n) = 0 ∷ zeros n

-- `StringToBytes32`, on the bytes of the string; its error also quotes the string.
unfoldable pub string_to_bytes32 : Bytes → Result Bytes
string_to_bytes32 s =
    if ltb 32 (length s) then err "version exceeds 32 bytes" else ok (s ++ zeros (32 - length s))

unfoldable pub add_version :
    Library → Outside → Support → ℕ → ℕ → Hash → Hash → Bytes → Act (Unit {0})
add_version lib out s prv extension_id code_hash platform version = do
  lift (lib.transactor prv s.chain_id)
  version_bytes ← lift (string_to_bytes32 version)
  hash ←
      wrap (λ e. sprintf ("TeeExtensionRegistry.AddTeeVersion failed: " ∷ e ∷ []))
        (perform out
          (send prv 0 (add_tee_version extension_id version_bytes code_hash (platform ∷ []))))
  receipt ← check_tx out hash
  done tt
