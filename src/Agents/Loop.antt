-- ===== src/Agents/Loop.antt =====
-- agents/src/onchain-client.ts, analyst.ts, guardian.ts and run.ts: the boundary between the zones and
-- the chain, the stub behind it, and the loop on each metric.
use Prim.Native.Char.{code}
use risk_claw_sol.Prelude.{
  false, List, [], ◌∷◌, Option, none, some, String, ◌==◌, ◌is◌, if◌then◌else◌,
}
use risk_claw_sol.Types.{
  PublicKey, TxSig, MintAddress, DelegationPolicy, RebalancePlan, exit, AgentConfig,
  ThresholdCheckResult, PositionMetrics,
}
use risk_claw_sol.Errors.{Outcome, ok, throws, error}
use risk_claw_sol.Encrypt.{Uint8Array}
use risk_claw_sol.Ids.{Web3, Ids}
use risk_claw_sol.Client
use risk_claw_sol.Client.{Host, World}

-- `OnchainClient`, over the state that its methods read and write.
pub record OnchainClient (W : Type 0) : Type 0 where
  pub set_encrypted_policy : PublicKey → Uint8Array → W → Outcome TxSig × W
  pub delegate_to_guardian : PublicKey → PublicKey → DelegationPolicy → W → Outcome TxSig × W
  pub check_threshold_breach : String → PositionMetrics → W → Outcome ThresholdCheckResult × W
  pub execute_private_rebalance : RebalancePlan → W → Outcome TxSig × W
  pub register_agent : AgentConfig → W → Outcome MintAddress × W

-- `stubClient`
abbrev pub stub_client : {W : Type 0} → OnchainClient W
stub_client = record {
  set_encrypted_policy = λ _ _ w. (throws (error "[stub] setEncryptedPolicy — Builder B"), w);
  delegate_to_guardian = λ _ _ _ w. (throws (error "[stub] delegateToGuardian — Builder B"), w);
  check_threshold_breach = λ _ _ w. (ok (record { breached = false; score = 0 }), w);
  execute_private_rebalance =
      λ _ w. (throws (error "[stub] executePrivateRebalance — Builder B"), w);
  register_agent = λ _ w. (throws (error "[stub] registerAgent — Builder B"), w);
}

-- `createRealClient(…)` behind the boundary.
abbrev pub real_client : {E : Type 0} → Host E → Web3 → Ids → OnchainClient (World E)
real_client host web3 ids = record {
  set_encrypted_policy = Client.set_encrypted_policy host web3 ids;
  delegate_to_guardian = Client.delegate_to_guardian;
  check_threshold_breach = Client.check_threshold_breach host;
  execute_private_rebalance = Client.execute_private_rebalance host web3 ids;
  register_agent = Client.register_agent ids;
}

-- The plan that run.ts gives to the Guardian.
abbrev pub exit_plan : PositionMetrics → RebalancePlan
exit_plan metrics = record { position_id = metrics.position_id; action = exit; size_bps = 10000 }

abbrev pub sent : {W : Type 0} → Outcome TxSig × W → Outcome (Option TxSig) × W
sent (ok sig, w) = (ok (some sig), w)
sent (throws t, w) = (throws t, w)

module _ {W : Type 0} (onchain : OnchainClient W) where
  -- `createAnalyst(…).evaluate`
  unfoldable pub evaluate : PositionMetrics → W → Outcome ThresholdCheckResult × W
  evaluate metrics = onchain.check_threshold_breach metrics.position_id metrics

  -- `createGuardian(…).execute`
  unfoldable pub execute : RebalancePlan → W → Outcome TxSig × W
  execute plan = onchain.execute_private_rebalance plan

  abbrev pub decide :
      PositionMetrics → Outcome ThresholdCheckResult × W → Outcome (Option TxSig) × W
  decide metrics (throws t, w) = (throws t, w)
  decide metrics (ok result, w) =
      if result.breached then sent (execute (exit_plan metrics) w) else (ok none, w)

  -- The handler that run.ts gives to `observer.onMetrics`: the signature, if the Guardian acted.
  unfoldable pub handle_metrics : PositionMetrics → W → Outcome (Option TxSig) × W
  unfolding evaluate execute
  handle_metrics metrics w = decide metrics (evaluate metrics w)

  -- A run of the loop: each metric is handled in turn, with its outcome.
  unfoldable pub run_loop : List PositionMetrics → W → List (Outcome (Option TxSig)) × W
  unfolding handle_metrics
  run_loop [] w = ([], w)
  run_loop (m ∷ ms) w =
      let (o, w') = handle_metrics m w in let (os, w'') = run_loop ms w' in (o ∷ os, w'')

-- `POSITION_IDS.split(",")`; 44 is the comma.
push_char : String → List String → List String
push_char c [] = c ∷ []
push_char c (s ∷ rest) = Prim.Native.String.◌++◌ c s ∷ rest

unfoldable pub split_commas : String → List String
unfolding push_char
split_commas String.[] = "" ∷ []
split_commas (String.◌∷◌ c s) =
    if code c == 44
    then "" ∷ split_commas s
    else push_char (String.◌∷◌ c String.[]) (split_commas s)

-- `.filter(Boolean)`
unfoldable pub filter_nonempty : List String → List String
filter_nonempty [] = []
filter_nonempty (s ∷ rest) = if s is "" then filter_nonempty rest else s ∷ filter_nonempty rest

-- `process.env.POSITION_IDS?.split(",").filter(Boolean) ?? []`
unfoldable pub position_ids : Option String → List String
unfolding split_commas filter_nonempty
position_ids none = []
position_ids (some text) = filter_nonempty (split_commas text)
