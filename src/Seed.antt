-- ===== src/Seed.antt =====
-- scripts/seed-demo.ts: the preflight of the demo. The RPC connection is a function of the cluster's
-- state, `process.exit(1)` is a throw with what was printed before it, and a balance is in lamports.
pub mod Process
mod Configuration
unfoldable pub use Configuration.*
pub mod Preflight
pub mod Funding
use Process.{Run, lift, ◌>>=◌, ◌>>◌}
use risk_claw_sol.Prelude.{
  ℕ, Bool, true, false, List, [], ◌∷◌, Option, none, some, String, ◌is◌, leb, if◌then◌else◌, lookup,
  map,
}
use risk_claw_sol.Types.{PublicKey}
use risk_claw_sol.Errors.{Outcome, ok, throws, error}
use risk_claw_sol.Config.{Config}
use risk_claw_sol.Ids.{Web3}
use risk_claw_sol.Smoke.{DemoMetricStage, low_stage, high_stage}

-- The connection, over a type of states of the cluster.
pub record Faucet (E : Type 0) : Type 0 where
  pub get_balance : PublicKey → E → Outcome ℕ
  -- `requestAirdrop`, then `confirmTransaction`
  pub airdrop : PublicKey → ℕ → E → Outcome (Unit {0}) × E

-- ~/.config/solana/id.json: `none` if it is not there, else the key that is read from it.
abbrev pub WalletFile : Type 0
WalletFile = Option (Outcome PublicKey)

pub record TopUp : Type 0 where
  pub before : ℕ
  pub after : ℕ
  pub airdropped : Bool

-- A line of the ladder, and whether it is marked as a breach.
pub record LadderLine : Type 0 where
  pub stage : DemoMetricStage
  pub breach : Bool

-- `MIN_BALANCE_SOL` and `LAMPORTS_PER_SOL`, in lamports.
abbrev pub min_balance : ℕ
min_balance = 50000000

abbrev pub lamports_per_sol : ℕ
lamports_per_sol = 1000000000

abbrev pub ladder_line : DemoMetricStage → LadderLine
ladder_line stage = record { stage = stage; breach = leb 2500 stage.drawdown_bps }

-- The lines that are printed of `DEMO_STATE.metricsLadder`.
unfoldable pub ladder : List LadderLine
ladder = map ladder_line (low_stage ∷ high_stage ∷ [])

module _ {E : Type 0} (faucet : Faucet E) where
  abbrev balance_of : PublicKey → Run E ℕ
  balance_of key e = (faucet.get_balance key e, e)

  abbrev enough : ℕ → Run E TopUp
  enough before = lift (ok (record { before = before; after = before; airdropped = false }))

  -- What follows the first test of `topUpIfNeeded`.
  unfoldable pub request_airdrop : PublicKey → ℕ → Run E TopUp
  request_airdrop key before = do
    faucet.airdrop key lamports_per_sol
    after ← balance_of key
    lift (ok (record { before = before; after = after; airdropped = true }))

  -- `topUpIfNeeded`
  unfoldable pub top_up_if_needed : PublicKey → Run E TopUp
  top_up_if_needed key = do
    before ← balance_of key
    if leb min_balance before then enough before else request_airdrop key before

  -- 2) the wallet
  unfoldable pub wallet_preflight : WalletFile → Run E TopUp
  unfolding top_up_if_needed request_airdrop
  wallet_preflight none = lift (throws (error "wallet not found — run `solana-keygen new`"))
  wallet_preflight (some file) = do key ← lift file; top_up_if_needed key

  -- `main`
  unfoldable pub seed_demo : Web3 → Config → WalletFile → Run E (TopUp × List LadderLine)
  unfolding ladder
  seed_demo web3 config file = do
    lift (preflight web3 config)
    balance ← wallet_preflight file
    lift (ok (balance, ladder))
