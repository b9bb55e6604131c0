-- ===== src/Client/Failures.antt =====
-- What the methods of `RealClient` throw, and the `catch` of `executePrivateRebalance`
-- (packages/onchain/src/client.ts).
use Prim.Native.String
use risk_claw_sol.Prelude.{
  Bool, true, false, Option, none, some, String, codes, contains_ci, if◌then◌else◌,
}
use risk_claw_sol.Types.{TxSig, Action, reduce, exit, hedge, RebalancePlan}
use risk_claw_sol.Errors.{
  Thrown, Outcome, not_implemented_error, riskclaw_error, onchain_rejection, slippage_rejected,
}
use risk_claw_sol.Client.State.{WriteEntry}

abbrev pub onchain_rejection_error : String → Option String → Thrown
onchain_rejection_error = riskclaw_error onchain_rejection

abbrev pub action_name : Action → String
action_name reduce = "REDUCE"
action_name exit = "EXIT"
action_name hedge = "HEDGE"

abbrev pub is_exit_plan : Action → Bool
is_exit_plan exit = true
is_exit_plan _ = false

abbrev pub quoted : String → String → String → String
quoted before word after = String.◌++◌ before (String.◌++◌ word after)

-- The tests of the `catch` of `executePrivateRebalance` below the first, on `String(err)`.
abbrev pub classify : RebalancePlan → String → Thrown
classify plan msg =
    if contains_ci (codes "SlippageTooHigh") (codes msg)
    then riskclaw_error slippage_rejected "onchain slippage gate rejected" (some msg)
    else if contains_ci (codes "NotImplemented") (codes msg)
    then not_implemented_error (action_name plan.action) (some msg)
    else onchain_rejection_error "executePrivateRebalance failed" (some msg)

-- The `catch`: an error that names RebalanceTooSoon gives the cached signature, if there is one.
unfoldable pub rebalance_failed : RebalancePlan → Option WriteEntry → String → Outcome TxSig
rebalance_failed plan none msg = Outcome.throws (classify plan msg)
rebalance_failed plan (some e) msg =
    if contains_ci (codes "RebalanceTooSoon") (codes msg)
    then Outcome.ok e.last_tx_sig
    else Outcome.throws (classify plan msg)

abbrev pub no_policy_program_error : Thrown
no_policy_program_error =
    not_implemented_error
      "setEncryptedPolicy requires riskPolicyIdl + RISK_POLICY_PROGRAM_ID — run deploy-devnet.ts"
      none

abbrev pub ciphertext_size_error : Thrown
ciphertext_size_error = onchain_rejection_error "ciphertext must be 64 bytes" none

abbrev pub only_exit_error : Action → Thrown
only_exit_error action =
    not_implemented_error
      (quoted "executePrivateRebalance action=\"" (action_name action) "\" (only EXIT ships in v1)")
      none

abbrev pub no_swig_error : Thrown
no_swig_error =
    not_implemented_error
      "executePrivateRebalance requires swigDelegationIdl + SWIG_DELEGATION_PROGRAM_ID — run deploy-devnet.ts"
      none
