-- ===== src/Lib.antt =====
-- RiskClaw: private risk policies for positions on Solana. This library models the TypeScript client, the
-- agents around it, and the two Anchor programs that it drives.
--
-- The parts, and how they meet:
-- - Types, Errors, Config, Ids: the shared types (agents/src/types.ts), the typed errors
--   (packages/onchain/src/errors.ts), the configuration (config/devnet.ts), and the ids and derived
--   addresses (packages/onchain/src/ids.ts). A method that may throw returns an `Outcome`.
-- - Encrypt: the placeholder packing of a threshold (packages/onchain/src/encrypt.ts), on lists of bytes.
-- - Client: `RealClient` (packages/onchain/src/client.ts). The client's state is its two caches, its
--   throttle windows and whether it has the two programs; its methods run in a monad over that state and
--   an environment. What it calls and does not implement (the clock, `getAccountInfo`, Anchor's
--   `.rpc()`) is a `Host`, a record of functions over the environment.
-- - Programs: the handlers of swig_delegation and risk_policy (programs/programs), as functions of the
--   accounts that Anchor gives them.
-- - Devnet: the accounts by address, the clock, the log of events; `process` is one transaction, with
--   Anchor's account constraints written out, and `run` a history of transactions and passing time.
-- - Session: the host of `RealClient` whose transactions are those of Devnet, over a link that may be
--   down or lose a confirmation. Its theorems go through the client and the programs together.
-- - App: the operator's app. App/Binding is the hook that hands a page its client (app/lib/onchain.ts)
--   and the multisig of the configuration (app/lib/squads.ts); App/PolicyPage the policy editor
--   (app/app/policy/page.tsx), as a state that events change, with the calls that have not come back;
--   App/Trail the audit page (app/app/audit/page.tsx) with its subscription and, in App/Trail/Cards, the
--   cards of the agents; App/Shell the navigation (app/app/site-shell.tsx) and what the landing page
--   shows of the wallet (app/app/page.tsx). The pages run over any host of the client, or over a session.
-- - Agents: the Observer, the Analyst, the Guardian and the loop of agents/src/run.ts, over any
--   `OnchainClient`, the stub and the real one among them; Agents/Main is the process of run.ts, which
--   the throw of a handler ends as an unhandled rejection; Agents/Turns, Agents/Calm, Agents/Ticks,
--   Agents/Protection, Agents/Exit, Agents/Unwritten and Agents/FirstBreach follow it over time, with the
--   real client over a session.
-- - Registration: the script that mints the identities of the agents (scripts/register-agents.ts), over
--   its files as parsed and a library of assets; Registration/Core.antt is that library on a chain.
-- - Verify: the read-only verifier (scripts/verify-onchain.ts), check by check.
-- - Audit: the audit trail of the app (app/lib/audit.ts): events, generator, sort and text helpers.
-- - Deploy: the deployment script (scripts/deploy-devnet.ts), over a machine that logs its commands.
-- - Circuit: the comparison in the encrypted computation
--   (encrypted/threshold_compare/encrypted-ixs/src/lib.rs), over a type of encrypted values.
-- - Seed: the demo's preflight (scripts/seed-demo.ts), over a faucet; Multisig: the creation of the
--   multisig (scripts/create-multisig.ts), over the Squads library.
-- - Smoke: the demo and integration scripts (scripts/e2e-smoke.ts, scripts/smoke-realclient.ts,
--   scripts/demo-state.ts), run over a session; an exit of the process is a throw.
-- - Tests: the concrete deployment and the examples.
--
-- Each function has the name of the source's function in snake case. Methods of `RealClient` that the
-- source writes as one function are split where it awaits: `execute_private_rebalance` is the checks and
-- the write cache, `submit_rebalance` the transaction, `finish_rebalance` what follows it, and
-- `rebalance_failed` the `catch`. A call that overlaps another is then a call of `submit_rebalance` with
-- the cache entry that it read earlier.
--
-- Choices:
-- - Times, basis points and amounts are natural numbers. `now - last < window` is written
--   `now < last + window`, which says the same over the integers, also when the clock went back. The
--   chain's signed timestamps are taken to be at least 0.
-- - A number or a key that an error message quotes is left out of its text.
-- - The drift curve of the Observer is computed exactly; for each of its 60 phases the source's
--   floating-point product has the same whole part.
-- - No function runs on fuel: every loop is structural on the list that it walks.
-- - The agents' handlers run one after another. run.ts passes the stub; its comment says to pass the real
--   client in its place, as the properties on a session do.
-- - `Web3` (the constructor of `PublicKey`, `findProgramAddressSync`), the texts of the chain's errors,
--   the signatures and the constructor of `WebSocket` are parameters. `NamesErrors` states what the
--   client relies on in an error's text; `IsSetUp.own_address` that the account at the vault's address is
--   the vault's.
--
-- - A component of React is a record of what its hooks hold. A call of the client that a page awaits
--   reaches the cluster when it comes back; a button that is disabled delivers no event.
--
-- Not modelled: the static texts of the pages and the providers (markup without state), and the test
-- suites. web3.js,
-- Anchor, React, the wallet adapter, Arcis, Metaplex and Squads are libraries that the code only calls.
pub mod Prelude
pub mod Types
pub mod Errors
pub mod Encrypt
pub mod Config
pub mod Ids
pub mod Programs
pub mod Client
pub mod Devnet
pub mod Session
pub mod App
pub mod Agents
pub mod Smoke
pub mod Registration
pub mod Verify
pub mod Deploy
pub mod Circuit
pub mod Seed
pub mod Multisig
pub mod Audit
pub mod Tests
