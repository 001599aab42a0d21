-- ===== src/Extension.antt =====
-- The auction extension that runs in the enclave (go/internal/extension, go/pkg/types,
-- go/internal/config).
pub mod Types
pub mod Bids
pub mod Store
pub mod Handlers
pub mod Node
pub mod Start
pub mod Runs
pub mod Interleaving
