-- ===== src/Tests/Chain.antt =====
-- The programs on a chain.
use risk_claw_sol.Prelude.{◌≡◌, ◌↔◌, refl, arith, List, [], ◌∷◌, none, some, replicate}
use Prim.Native.Nat.{compare, eq}
use risk_claw_sol.Programs.SwigDelegation.{
  RebalanceAction, LastRebalanced, ExecuteRebalance, handle, ok, err, SwigDelegationError,
  RebalanceExecutedEvent,
}
use risk_claw_sol.Programs.SwigDelegation.Gates.{IsAllowed, Refusal, executed, handle_decides}
use risk_claw_sol.Programs.RiskPolicy.{RiskPolicy}
use risk_claw_sol.Client.{Instruction, init_policy, update_policy, execute_rebalance}
use risk_claw_sol.Devnet.{Devnet, Activity, transaction, seconds, run}
use risk_claw_sol.Devnet.RateLimit.{Spaced, rebalances-Spaced}
use risk_claw_sol.Devnet.Ownership.{policy_unchanged}
use risk_claw_sol.Devnet.WellFormed.{AllPolicies, policies_well_formed}
use risk_claw_sol.Tests.Fixture.{deployment, chain}

abbrev call : ExecuteRebalance
call = record {
  policy = 40;
  guardian_authority = 7;
  action = RebalanceAction.exit;
  size_bps = 5000;
  max_slippage_bps = 100;
  expected_out = 1000;
  min_out = 995;
}

abbrev fresh : LastRebalanced
fresh = record { timestamp = 0; bump = 0 }

abbrev stamped : LastRebalanced
stamped = record { timestamp = 980; bump = 254 }

handle_decides_example :
    ((r : LastRebalanced × RebalanceExecutedEvent)
      → (handle call 1000 254 stamped ≡ ok r)
        ↔ (IsAllowed call 1000 stamped × (r ≡ executed call 1000 254)))
    × ((e : SwigDelegationError)
        → (handle call 1000 254 stamped ≡ err e) ↔ Refusal e call 1000 stamped)
handle_decides_example = handle_decides call 1000 254 stamped

abbrev pub rebalance : Instruction
rebalance = execute_rebalance 40 RebalanceAction.exit 5000 100 1000 995

-- The second is refused, the third is executed.
abbrev pub history : List Activity
history =
    transaction 7 rebalance
    ∷ seconds 10
    ∷ transaction 8 rebalance
    ∷ seconds 25
    ∷ transaction 7 rebalance
    ∷ []

rebalances-Spaced_example : Spaced (run deployment history chain).events
rebalances-Spaced_example = rebalances-Spaced deployment history chain (omega arith) refl

abbrev policy : RiskPolicy
policy = record {
  owning_multisig_vault = 7;
  ciphertext_ref = replicate 64 1;
  arcium_handle = replicate 32 0;
  policy_hash = replicate 32 0;
  updated_at = 900;
  last_check_at = 0;
  bump = 254;
}

abbrev with_policy : Devnet
with_policy = record chain { policies = λ a. elim (compare a 7001) [ eq ↦ some policy | _ ↦ none ] }

abbrev others : List Activity
others =
    transaction 8 (update_policy (replicate 64 2) (replicate 32 0) 7)
    ∷ seconds 5
    ∷ transaction 9 (init_policy (replicate 64 2) (replicate 32 0) 9)
    ∷ []

policy_unchanged_example : (run deployment others with_policy).policies 7001 ≡ some policy
policy_unchanged_example =
    policy_unchanged deployment others with_policy 7001 policy (omega arith) refl

policies_well_formed_example : AllPolicies deployment (run deployment history chain).policies
policies_well_formed_example = policies_well_formed deployment history chain (λ a p h. cc)
