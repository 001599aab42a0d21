-- ===== src/Extension/Node.antt =====
-- The ports of the extension (go/internal/config/config.go) and the decryption by the local tee-node
-- (go/internal/extension/decrypt.go), which the handlers take as their decryption function.
use sealed_auction_fce.Prelude.{
  ℕ, [], ◌∷◌, String, ℤ, pos, Result, ok, err, map_err, sprintf, is_empty, to_string, not, ◌==◌,
  if◌then◌else◌,
}
use sealed_auction_fce.Extension.Types.{Bytes}

-- The HTTP response of tee-node, its body read as text for an error.
pub record NodeReply : Type 0 where
  pub status_code : ℕ
  pub body : Bytes
  pub body_text : String

-- The environment, strconv.Atoi, the coders of encoding/json, and what tee-node answers to a POST.
pub record NodeLibrary : Type 0 where
  pub getenv : String → String
  pub atoi : String → Result ℤ
  pub marshal_request : Bytes → Bytes
  pub post : String → Bytes → Result NodeReply
  pub decode_response : Bytes → Result Bytes

module _ (n : NodeLibrary) where
  -- A port that the environment overrides when it names a number.
  unfoldable pub port_of : String → ℤ → ℤ
  port_of name default_port =
      if is_empty (n.getenv name)
      then default_port
      else elim (n.atoi (n.getenv name)) [ ok v ↦ v | err e ↦ default_port ]

  -- `ExtensionPort` and `SignPort` after `init`.
  unfoldable pub extension_port : ℤ
  extension_port = port_of "EXTENSION_PORT" (pos 8080)

  unfoldable pub sign_port : ℤ
  sign_port = port_of "SIGN_PORT" (pos 9090)

  unfoldable pub decrypted_in : NodeReply → Result Bytes
  decrypted_in reply =
      if not (reply.status_code == 200)
      then err (
          sprintf
            ("node returned " ∷ to_string (pos reply.status_code) ∷ ": " ∷ reply.body_text ∷ []))
      else map_err (λ e. sprintf ("decode response: " ∷ e ∷ [])) (n.decode_response reply.body)

  -- `decryptViaNode`.
  unfoldable pub decrypt_via_node : ℤ → Bytes → Result Bytes
  decrypt_via_node port ciphertext =
      elim (n.post (sprintf ("http://localhost:" ∷ to_string port ∷ "/decrypt" ∷ []))
        (n.marshal_request ciphertext)) [
          | err e ↦ err (sprintf ("request error: " ∷ e ∷ []))
          | ok reply ↦ decrypted_in reply
        ]
