-- ===== src/Extension/Runs.antt =====
-- Sequences of requests to one extension process (go/internal/extension/extension.go). The decryption
-- function stands for tee-node's answers, which may differ from one request to the next.
use sealed_auction_fce.Prelude.{Option, none, some, List, [], ◌∷◌, Result}
use sealed_auction_fce.Extension.Types.{Bytes, Codec, Action}
use sealed_auction_fce.Extension.Store.{Extension}
use sealed_auction_fce.Extension.Handlers.{HttpResponse, process_action}
pub mod Steps
pub mod Freeze
pub mod Status
pub mod Sequence
pub mod Provenance
pub mod Reclose
pub mod House

pub record Request : Type 0 where
  pub decrypt : Bytes → Result Bytes
  pub action : Action

-- The requests one after the other; `none` is a panic.
unfoldable pub run : Codec → Extension → List Request → Option Extension
run codec e [] = some e
run codec e (q ∷ qs) = elim (process_action codec q.decrypt e q.action) [
  | none ↦ none
  | some (e', response) ↦ run codec e' qs
]
