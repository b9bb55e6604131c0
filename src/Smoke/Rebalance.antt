-- ===== src/Smoke/Rebalance.antt =====
-- Steps 7 and 8 of the demo: the plan is executed, its event is heard, and the repeated call gives the
-- same signature.
use risk_claw_sol.Prelude.{
  ℕ, ◌≤◌, ◌<◌, ◌≡◌, refl, ◌∙◌, ap, List, [], ◌∷◌, Option, some, String, arith, eq_refl, lookup,
  lookup-insert_self,
}
use risk_claw_sol.Types.{PublicKey, RebalancePlan}
use risk_claw_sol.Errors.{ok}
use risk_claw_sol.Ids.{Ids}
use risk_claw_sol.Programs.SwigDelegation.{
  init_if_needed, RebalanceAction, RebalanceExecutedEvent, LastRebalanced,
}
use risk_claw_sol.Programs.SwigDelegation.Gates.{InWindow}
use risk_claw_sol.Client.{World, execute_private_rebalance, fresh_write}
use risk_claw_sol.Client.Rebalance.{rebalance_cached}
use risk_claw_sol.Devnet.{Deployment, Devnet}
use risk_claw_sol.Devnet.Execution.{stored_or_new}
use risk_claw_sol.Session.{Session, session_host}
use risk_claw_sol.Session.Rebalance.{IsOnline, account_before, world_executed, rebalance_executed}
use risk_claw_sol.Smoke.{paced, demo_plan, rebalance_steps, wait_event}

-- The listener has delivered a new event once it is on the log.
abbrev pub Delivers :
    (List RebalanceExecutedEvent → Session → Option RebalanceExecutedEvent) → Type 0
Delivers heard =
    (before : List RebalanceExecutedEvent) (event : RebalanceExecutedEvent) (s : Session)
    → s.chain.events ≡ event ∷ before
    → heard before s ≡ some event

-- The account limits nothing at a later time that it did not limit before.
pub still_allowed :
    (d d' : Devnet) (pda : PublicKey)
    → d'.last_rebalanced ≡ d.last_rebalanced
    → d.unix_timestamp ≤ d'.unix_timestamp
    → ¬ (InWindow d.unix_timestamp (stored_or_new d pda))
    → ¬ (InWindow d'.unix_timestamp (stored_or_new d' pda))
still_allowed d d' pda same later rate (used, young) =
    let account : stored_or_new d' pda ≡ stored_or_new d pda =
      ap (λ m. init_if_needed (m pda)) same in
    let stamp = ap (λ (a : LastRebalanced). a.timestamp) account in
    rate ((λ zero. used (stamp ∙ zero)), omega (arith, stamp, young, later))

module _ (deployment : Deployment) (ids : Ids) (wallet : PublicKey) where
  -- The second call, after a pace.
  pub repeated :
      (pace_ms : ℕ) (plan : RebalancePlan) (w : World Session) (o : IsOnline deployment ids plan w)
      → w.client.write_throttle_ms ≡ 30000
      → pace_ms < 30000
      → let w' =
          paced pace_ms (world_executed deployment ids wallet plan o.ready.policy o.ready.pda w) in
        execute_private_rebalance (session_host deployment wallet) deployment.web3 ids plan w'
        ≡ (ok (deployment.signature w.env.chain.count), w')
  unfolding fresh_write
  repeated pace_ms plan w o window quick =
      let w' : World Session =
        paced pace_ms (world_executed deployment ids wallet plan o.ready.policy o.ready.pda w) in
      rebalance_cached (session_host deployment wallet) deployment.web3 ids plan w'
        (record {
          policy = o.ready.policy;
          program = o.ready.program;
          pda = o.ready.pda;
          action_exit = o.ready.action_exit;
          has_program = ground (arith, o.ready.has_program);
          program_set = o.ready.program_set;
          parsed = o.ready.parsed;
          derived = o.ready.derived;
        })
        (ground (
          arith,
          lookup-insert_self plan.position_id
              (record {
                last_tx_sig = deployment.signature w.env.chain.count;
                last_executed_at = w.env.date_ms;
              })
              w.client.write_cache,
        ))

module _ (deployment : Deployment) (ids : Ids) (wallet : PublicKey) (to_base58 : PublicKey → String)
    (heard : List RebalanceExecutedEvent → Session → Option RebalanceExecutedEvent) where
  -- Steps 7 and 8 pass for a policy that the chain may execute.
  pub rebalance_steps_pass :
      (pace_ms : ℕ) (policy : PublicKey) (before : List RebalanceExecutedEvent) (w : World Session)
      (o : IsOnline deployment ids (demo_plan (to_base58 policy)) w)
      → w.env.chain.events ≡ before
      → o.ready.policy ≡ policy
      → w.client.write_cache ≡ []
      → w.client.write_throttle_ms ≡ 30000
      → ¬ (InWindow w.env.chain.unix_timestamp (account_before o.ready.pda w))
      → Delivers heard
      → pace_ms < 30000
      → (w' : World Session) × (rebalance_steps deployment ids wallet to_base58 heard pace_ms policy
            before w
          ≡ (ok (deployment.signature w.env.chain.count), w'))
  unfolding rebalance_steps wait_event fresh_write lookup
  rebalance_steps_pass pace_ms policy before w o past same empty window rate delivers quick =
      let w1 : World Session =
        world_executed deployment ids wallet (demo_plan (to_base58 policy)) o.ready.policy
          o.ready.pda w in
      let first =
        rebalance_executed deployment ids wallet (demo_plan (to_base58 policy)) w o (rw empty refl)
          rate (omega arith) in
      let event : RebalanceExecutedEvent = record {
        policy = o.ready.policy;
        guardian_authority = wallet;
        action = RebalanceAction.exit;
        size_bps = 10000;
        ts = w.env.chain.unix_timestamp;
      } in
      let captured = delivers before event w1.env (ap (λ old. event ∷ old) past) in
      let second =
        repeated deployment ids wallet pace_ms (demo_plan (to_base58 policy)) w o window quick in
      (
        paced pace_ms (paced pace_ms w1),
        ground (
          arith,
          first,
          captured,
          second,
          eq_refl (deployment.signature w.env.chain.count),
          eq_refl (to_base58 policy),
        ),
      )
