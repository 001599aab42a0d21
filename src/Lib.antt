-- ===== src/Lib.antt =====
-- The sealed-bid auction of this repository, and the tools that deploy and register it.
--
-- An auction contract sends instructions to an extension that runs in a TEE. PLACE_BID carries an
-- encrypted bid, which the extension decrypts, checks against the sender and stores; CLOSE_AUCTION
-- makes it choose the winner among the stored bids and return an ABI-encoded result. The tools
-- register the extension and its TEE machines on chain and check a deployment.
--
-- The extension (go/internal/extension, go/pkg/types, go/internal/config):
--   * Extension/Types: the messages of types.go, the constants of config.go, and `Codec`, the JSON
--     and ABI coders and the hashes of other libraries, which are parameters.
--   * Extension/Bids: `Bid`, `pickWinner` and `better` of winner.go. A nil *big.Int is `none`; the
--     panic of Cmp or Set on it is `none` as the result.
--   * Extension/Store: the state of extension.go (bids by auction, closed auctions, counter), its
--     maps as association lists with text keys, `stateHandler`.
--   * Extension/Handlers: processPlaceBid, processCloseAuction, processAction of extension.go, and
--     buildResult and actionHandler of utils.go. Each takes and returns the state.
--   * Extension/Node: the ports of config.go and decryptViaNode of decrypt.go, the function that the
--     handlers take for decryption.
--   * Extension/Start: what go/cmd/docker and go/cmd/start-tee compute from the environment.
--   * Extension/Runs: sequences of requests; Runs/House is an auction house without codecs, maps or
--     texts, and its children relate the handlers to it. Extension/Interleaving: processPlaceBid as
--     its two critical sections, with other handlers between them, as a step relation.
--
-- The tools (tools/pkg):
--   * Chain: the calls that the tools make, in the order of a journal, with CheckTx of
--     support/support.go; Chain/Failed is about the reason of a failed transaction; Chain/Market has
--     the transactions and views of the auction and the tokens. The outside answers or fails each
--     call by the calls before it. Journal and Returned are the lemmas on which calls a computation
--     adds and on what it returned.
--   * Revert: fccutils/revert.go and the decoders of support.go, and in Revert/Selector the matching
--     of revert data that fccutils/diag.go and cmd/audit-deploy share. An error is identified by its
--     text.
--   * Registration: fccutils/registration.go, tee_calls.go and policy_consistency.go. Policy has the
--     signing policy check, Steps the requests, Production the polling and the move to production,
--     Node `RegisterNode` block by block; Allowed, Node/Sends and Node/Resume are about it, Progress
--     about the policy check. Diagnose is diag.go, Proxy is `SetProxyUrl`. The state file is a field of the world. A write that fails leaves an
--     arbitrary content.
--   * Setup: fccutils/extension.go and governance.go, and in Setup/Version `AddTeeVersion` and
--     `StringToBytes32` of registration.go.
--   * Addresses: support/support.go (keys, the addresses file, `NewSupport`) and configs/configs.go.
--   * Utils: utils/instructions.go (Instructions), erc20.go and nft.go (Tokens), fxrp.go (Fxrp);
--     Operations names them as one type, for Asked and Sent.
--   * Report: validate/report.go, printed as a list of lines.
--   * Checks: validate/checks.go and validate.go, by the step that they check; EnvFile has the two
--     readers of extension.env, Json the values of `FprintJSON`.
--
-- The commands (tools/cmd), on these modules:
--   * Commands/Machines: pause-tee and reconcile-tee. Commands/RunTest: run-test, with Flow for its
--     sale from the first lot to the last check.
--   * Commands/Register: register-tee and allow-tee-version, with fccutils/common.go.
--     Commands/Govern: set-governance. Commands/Deploy: deploy-contract and register-extension.
--     Commands/Verify: verify-deploy. Commands/Audit: the replay of audit-deploy.
--
-- Tests has concrete inputs, and each of its modules that ends in Theorems applies the theorems to
-- them.
--
-- Prelude has the shared types, the Boolean tests, maps, integers and texts. Native numbers stand
-- for Go's integers; where a sum can wrap around (the bid counter, the epoch plus one), the
-- remainder is written out, and addresses and hashes are the numbers that their bytes spell.
--
-- Bounds and fuel: a decimal of `n` is written with n + 1 rounds, more than its digits; ActionResult
-- makes at most the 15 requests of its constant. The wait of run-test for the deadline has no bound
-- in the code, so it runs on a number of queries, and returns false when they are used up; on a
-- chain whose time grows, more queries than seconds left are enough. All the other loops run over a
-- list, a text, or the count of registered extensions.
--
-- Not modelled: logging and printing, the HTTP servers and the process start-up of go/cmd and go/pkg
-- (pure I/O, with the setProxyURL of start-tee, a copy of that of the tools), the coders and the
-- cryptography of other libraries and the generated contract bindings (parameters, with the
-- constructors of the bindings of `NewSupport` as one parameter by address), the commands query-tee
-- and start-proxy and what audit-deploy prints besides its replay, the coders of encoding.go that
-- only pass on to a library, the Solidity contracts and the frontend. The flags of a command are its
-- arguments, parsed.
pub mod Prelude
pub mod Extension
pub mod Chain
pub mod Revert
pub mod Registration
pub mod Setup
pub mod Report
pub mod Checks
pub mod Addresses
pub mod Utils
pub mod Commands
pub mod Tests
