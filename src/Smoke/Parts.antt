-- ===== src/Smoke/Parts.antt =====
-- scripts/demo-state.ts, and the small parts of the two scripts that run it.
use risk_claw_sol.Prelude.{
  ℕ, ◌+◌, ◌/◌, Bool, true, false, not, ◌&&◌, List, [], ◌∷◌, none, String, ltb, ◌==◌, if◌then◌else◌,
  lookup,
}
use risk_claw_sol.Prelude.Int.{ℤ, pos}
use risk_claw_sol.Types.{
  PublicKey, TxSig, Action, RebalancePlan, PositionMetrics, ThresholdCheckResult,
}
use risk_claw_sol.Errors
use risk_claw_sol.Errors.{Thrown, ErrorClass, error, Outcome}
use risk_claw_sol.Config.{AgentEntry}
use risk_claw_sol.Ids.{Ids}
use risk_claw_sol.Programs.SwigDelegation.{RebalanceExecutedEvent}
use risk_claw_sol.Client.{World, Call, pure, is_some, CreateRealClientOpts}
use risk_claw_sol.Session.{Session}

-- `DemoMetricStage`
pub record DemoMetricStage : Type 0 where
  pub drawdown_bps : ℕ
  pub notional_usd : ℕ
  pub liquidity_share_bps : ℕ

-- `DEMO_STATE`
abbrev pub threshold_plaintext : ℤ
threshold_plaintext = pos 9000

abbrev pub low_stage : DemoMetricStage
low_stage = record { drawdown_bps = 500; notional_usd = 9000; liquidity_share_bps = 100 }

abbrev pub high_stage : DemoMetricStage
high_stage = record { drawdown_bps = 3500; notional_usd = 7500; liquidity_share_bps = 200 }

-- `DEMO_STATE.rebalance`, for a position.
abbrev pub demo_plan : String → RebalancePlan
demo_plan id = record { position_id = id; action = Action.exit; size_bps = 10000 }

abbrev pub metrics_of : String → DemoMetricStage → ℕ → PositionMetrics
metrics_of id stage now = record {
  position_id = id;
  notional_usd = stage.notional_usd;
  drawdown_bps = stage.drawdown_bps;
  liquidity_share_bps = stage.liquidity_share_bps;
  observed_at_unix_ms = now;
}

-- The metrics of step 6, which the cache should ignore.
abbrev pub ignored_stage : DemoMetricStage
ignored_stage = record { drawdown_bps = 100; notional_usd = 999999; liquidity_share_bps = 0 }

abbrev pub same_bool : Bool → Bool → Bool
same_bool true b = b
same_bool false b = not b

abbrev pub same_result : ThresholdCheckResult → ThresholdCheckResult → Bool
same_result r s = same_bool r.breached s.breached && (r.score == s.score)

-- Time that passes on both clocks.
abbrev pub elapse : ℕ → Session → Session
elapse ms s = record s {
  date_ms = s.date_ms + ms;
  chain = record (s.chain) { unix_timestamp = (s.chain).unix_timestamp + ms / 1000 };
}

abbrev pub sleep : ℕ → Call Session (Unit {0})
sleep ms w = (Errors.ok tt, record w { env = elapse ms w.env })

-- `await pace()`, for `PACE_MS`.
abbrev pub pace : ℕ → Call Session (Unit {0})
pace pace_ms = if ltb 0 pace_ms then sleep pace_ms else pure tt

-- The world after a pace.
abbrev pub paced : ℕ → World Session → World Session
paced pace_ms w = (pace pace_ms w).1

abbrev pub chain_events : Call Session (List RebalanceExecutedEvent)
chain_events w = (Errors.ok w.env.chain.events, w)

-- `try { … } catch (err) { if (err instanceof NotImplementedError) threwExpected = true; }`
abbrev pub threw_not_implemented : {A : Type 0} → Outcome A → Bool
threw_not_implemented (Errors.ok a) = false
threw_not_implemented (Errors.throws t) = elim t.class [
  | ErrorClass.not_implemented ↦ true
  | _ ↦ false
]

abbrev pub attempt : {A : Type 0} → Call Session A → Call Session Bool
attempt m w = let (o, w') = m w in (Errors.ok (threw_not_implemented o), w')

-- The options that the scripts give to `createRealClient`.
abbrev pub script_opts : CreateRealClientOpts
script_opts = record {
  read_throttle_ms = none;
  write_throttle_ms = none;
  risk_policy_idl = true;
  swig_delegation_idl = true;
}

abbrev pub has_agent : String → List (String × AgentEntry) → Bool
has_agent zone agents = is_some (lookup zone agents)

-- 0.05 SOL, in lamports.
abbrev pub min_balance : ℕ
min_balance = 50000000

-- Step 1; each failed test ends the run.
unfoldable pub preconditions : Ids → List (String × AgentEntry) → Outcome ℕ → Outcome (Unit {0})
preconditions ids agents balance =
    if not (is_some ids.risk_policy_program_id)
    then Errors.throws (error "step 1: RISK_POLICY_PROGRAM_ID null — run deploy-devnet")
    else if not (is_some ids.swig_delegation_program_id)
    then Errors.throws (error "step 1: SWIG_DELEGATION_PROGRAM_ID null — run deploy-devnet")
    else if not (is_some ids.dev_multisig)
    then Errors.throws (error "step 1: DEV_MULTISIG null — Builder A: bun run create-multisig")
    else if not
        (has_agent "read" agents && has_agent "compute" agents && has_agent "execute" agents)
    then Errors.throws (error "step 1: DEVNET_AGENTS incomplete — run register-agents")
    else elim balance [
      | Errors.throws t ↦ Errors.throws t
      | Errors.ok lamports ↦
          if ltb lamports min_balance
          then Errors.throws (error "step 1: wallet has too little SOL")
          else Errors.ok tt
    ]

abbrev pub same_bytes : List ℕ → List ℕ → Bool
same_bytes [] [] = true
same_bytes [] (b ∷ bs) = false
same_bytes (a ∷ xs) [] = false
same_bytes (a ∷ xs) (b ∷ bs) = (a == b) && same_bytes xs bs

-- What the script prints at its end.
pub record Summary : Type 0 where
  pub set_sig : TxSig
  pub exec_sig : TxSig
  pub policy_pda : PublicKey
