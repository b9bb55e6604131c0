-- ===== src/Tests/Fixture.antt =====
-- A concrete deployment: addresses are numbers, and every library call has a plain answer.
use risk_claw_sol.Prelude.{
  ℕ, ◌+◌, ◌*◌, List, [], ◌∷◌, codes, none, some, String, true, if◌then◌else◌, ◌==◌,
}
use risk_claw_sol.Types.{PublicKey, RebalancePlan, Action, PositionMetrics}
use risk_claw_sol.Errors.{Outcome, ok, throws, error}
use risk_claw_sol.Ids.{Web3, Ids, Seed, literal, key}
use risk_claw_sol.Programs.SwigDelegation.{
  rebalance_too_soon, slippage_too_high, not_implemented, invalid_size, arithmetic_overflow,
}
use risk_claw_sol.Client.{RealClient, World}
use risk_claw_sol.Devnet.{
  Deployment, Devnet, ProgramError, swig, account_in_use, account_not_initialized, constraint_seeds,
  constraint_has_one, missing_signature, no_address,
}
use risk_claw_sol.Session.{Session, up}

abbrev number_of : List ℕ → ℕ
number_of [] = 0
number_of (c ∷ cs) = c + 256 * number_of cs

abbrev address_of : List Seed → PublicKey → Outcome (PublicKey × ℕ)
address_of (literal l ∷ key k ∷ []) program = ok (k * 1000 + program, 254)
address_of _ program = throws (error "Unable to find a viable program address bump")

abbrev pub web3 : Web3
web3 = record { new_public_key = λ s. ok (number_of (codes s)); find_program_address = address_of }

abbrev text_of : ProgramError → String
text_of (swig rebalance_too_soon) =
    "AnchorError occurred. Error Code: RebalanceTooSoon. Error Number: 6000."
text_of (swig slippage_too_high) =
    "AnchorError occurred. Error Code: SlippageTooHigh. Error Number: 6001."
text_of (swig not_implemented) =
    "AnchorError occurred. Error Code: NotImplemented. Error Number: 6002."
text_of (swig invalid_size) = "AnchorError occurred. Error Code: InvalidSize. Error Number: 6003."
text_of (swig arithmetic_overflow) = "Program failed to complete: panicked"
text_of account_in_use = "Allocate: account already in use"
text_of account_not_initialized = "AnchorError: AccountNotInitialized"
text_of constraint_seeds = "AnchorError: ConstraintSeeds"
text_of constraint_has_one = "AnchorError: ConstraintHasOne"
text_of missing_signature = "Signature verification failed"
text_of no_address = "Unable to find a viable program address bump"

abbrev pub deployment : Deployment
deployment = record {
  web3 = web3;
  risk_policy_program = 1;
  swig_delegation_program = 2;
  signature = λ n. if n == 0 then "5first" else "6later";
  error_text = text_of;
}

abbrev pub ids : Ids
ids = record {
  squads_v4_program_id = 9;
  risk_policy_program_id = some 1;
  swig_delegation_program_id = some 2;
  dev_multisig = some 7;
  agent_registry = [];
}

abbrev pub wallet : PublicKey
wallet = 7

-- A new chain, at a time past 0.
abbrev pub chain : Devnet
chain = record {
  unix_timestamp = 1000;
  policies = λ a. none;
  last_rebalanced = λ a. none;
  events = [];
  count = 0;
}

abbrev pub client : RealClient
client = record {
  read_throttle_ms = 5000;
  write_throttle_ms = 30000;
  risk_policy = true;
  swig_delegation = true;
  read_cache = [];
  write_cache = [];
}

abbrev pub world : World Session
world = record { client = client; env = record { chain = chain; date_ms = 1000000; link = up } }

abbrev pub plan : RebalancePlan
plan = record { position_id = "pos"; action = Action.exit; size_bps = 10000 }

abbrev pub metrics : ℕ → PositionMetrics
metrics bps = record {
  position_id = "pos";
  notional_usd = 9000;
  drawdown_bps = bps;
  liquidity_share_bps = 100;
  observed_at_unix_ms = 0;
}
