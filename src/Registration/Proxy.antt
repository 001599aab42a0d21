-- ===== src/Registration/Proxy.antt =====
-- The address of the proxy, set on a TEE (`SetProxyUrl` of tools/pkg/fccutils/tee_calls.go).
use sealed_auction_fce.Prelude.{
  ℤ, [], ◌∷◌, String, Result, fail_if, sprintf, to_string, pos, not, ◌==◌,
}
use sealed_auction_fce.Extension.Types.{Bytes}
use sealed_auction_fce.Chain.{Outside, Act, lift, perform, http_post, ◌>>=◌}

abbrev local_url : ℤ → String → String
local_url port path = sprintf ("http://localhost:" ∷ to_string port ∷ path ∷ [])

-- `SetProxyUrl`; `marshal_request` is json.Marshal of the request with this address.
unfoldable pub set_proxy_url :
    Outside
    → (marshal_request : String → Result Bytes) → (configuration_port proxy_port : ℤ)
    → Act (Unit {0})
set_proxy_url out marshal_request configuration_port proxy_port = do
  body ← lift (marshal_request (local_url proxy_port ""))
  reply ← perform out (http_post (local_url configuration_port "/proxy") body)
  lift (
      fail_if (not (reply.status_code == 200))
        (sprintf ("unexpected status code: " ∷ to_string (pos reply.status_code) ∷ [])))
