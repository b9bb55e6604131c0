-- ===== src/Types.antt =====
-- agents/src/types.ts: the types that the agents and the on-chain package share. A `PublicKey` is
-- the number that web3.js keeps in it; amounts and basis points are naturals.
use risk_claw_sol.Prelude.{ℕ, Bool, List, String}

abbrev pub PublicKey : Type 0
PublicKey = ℕ

abbrev pub TxSig : Type 0
TxSig = String

abbrev pub MintAddress : Type 0
MintAddress = PublicKey

pub record DelegationPolicy : Type 0 where
  pub max_notional_usd : ℕ
  pub allowed_instruments : List String
  pub max_slippage_bps : ℕ
  pub expires_at_unix : ℕ

pub data Action : Type 0 where
  reduce exit hedge : Action

pub record RebalancePlan : Type 0 where
  pub position_id : String
  pub action : Action
  pub size_bps : ℕ

pub data Zone : Type 0 where
  read compute execute : Zone

pub record AgentConfig : Type 0 where
  pub zone : Zone
  pub name : String
  pub public_key : PublicKey

pub record ThresholdCheckResult : Type 0 where
  pub breached : Bool
  pub score : ℕ

pub record PositionMetrics : Type 0 where
  pub position_id : String
  pub notional_usd : ℕ
  pub drawdown_bps : ℕ
  pub liquidity_share_bps : ℕ
  pub observed_at_unix_ms : ℕ
