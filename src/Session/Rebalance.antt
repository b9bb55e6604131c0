-- ===== src/Session/Rebalance.antt =====
-- `executePrivateRebalance` on the cluster: the outcome of a submitted plan by the state of the chain.
use risk_claw_sol.Prelude.{
  ℕ, ◌≤◌, ◌≡◌, refl, [], ◌∷◌, Option, none, some, arith, ap, ◌∙◌, lookup, insert,
}
use risk_claw_sol.Types.{PublicKey, RebalancePlan}
use risk_claw_sol.Errors.{ok}
use risk_claw_sol.Ids.{Ids, derive_last_rebalanced_pda, literal, key, last_rebalanced_seed}
use risk_claw_sol.Programs.SwigDelegation.{
  RebalanceAction, LastRebalanced, ExecuteRebalance, SwigDelegationError, rebalance_too_soon,
  invalid_size, handle,
}
use risk_claw_sol.Programs.SwigDelegation
use risk_claw_sol.Programs.SwigDelegation.Gates.{InWindow, IsAllowed, handle_of_IsAllowed}
use risk_claw_sol.Client.{
  World, WriteEntry, rebalance_instruction, execute_private_rebalance, submit_rebalance,
  expected_out, min_out, max_slippage_bps, rebalance_failed,
}
use risk_claw_sol.Client.Rebalance.{IsReady, cached_sig, rebalance_submitted}
use risk_claw_sol.Devnet.{
  Deployment, Devnet, landed, failed, swig, address, last_rebalanced_address, process,
}
use risk_claw_sol.Devnet.Execution.{after_execution, stored_or_new}
use risk_claw_sol.Session.{Session, up, session_host, send_landed, send_failed}

-- The call of the program that a plan becomes.
abbrev pub call_of : RebalancePlan → PublicKey → PublicKey → ExecuteRebalance
call_of plan policy wallet = record {
  policy = policy;
  guardian_authority = wallet;
  action = RebalanceAction.exit;
  size_bps = plan.size_bps;
  max_slippage_bps = max_slippage_bps;
  expected_out = expected_out;
  min_out = min_out;
}

module _ (deployment : Deployment) (wallet : PublicKey) where
  -- A call that the program executes lands.
  process_executed :
      (plan : RebalancePlan) (policy : PublicKey) (d : Devnet) (found : PublicKey × ℕ)
      → last_rebalanced_address deployment policy ≡ landed found
      → IsAllowed (call_of plan policy wallet) d.unix_timestamp (stored_or_new d found.0)
      → process deployment wallet (rebalance_instruction plan policy) d
        ≡ landed (after_execution (call_of plan policy wallet) found d)
  unfolding process
  process_executed plan policy d found located allowed = ground (
    arith,
    located,
    handle_of_IsAllowed (call_of plan policy wallet) d.unix_timestamp found.1
        (stored_or_new d found.0) allowed,
  )

  process_refused :
      (plan : RebalancePlan) (policy : PublicKey) (d : Devnet) (found : PublicKey × ℕ)
      (e : SwigDelegationError)
      → last_rebalanced_address deployment policy ≡ landed found
      → handle (call_of plan policy wallet) d.unix_timestamp found.1 (stored_or_new d found.0)
        ≡ SwigDelegation.err e
      → process deployment wallet (rebalance_instruction plan policy) d ≡ failed (swig e)
  unfolding process
  process_refused plan policy d found e located refused = ground (arith, located, refused)

-- The account that limits the policy, as the program finds it.
abbrev pub account_before : PublicKey × ℕ → World Session → LastRebalanced
account_before pda w = stored_or_new w.env.chain pda.0

-- A session in which a plan reaches the chain.
pub record IsOnline (deployment : Deployment) (ids : Ids) (plan : RebalancePlan) (w : World Session)
    : Type 0 where
  pub ready : IsReady deployment.web3 ids plan w.client
  pub same_program : ids.swig_delegation_program_id ≡ some deployment.swig_delegation_program
  pub connected : w.env.link ≡ up

module _ (deployment : Deployment) (ids : Ids) (wallet : PublicKey) where
  located_of :
      (plan : RebalancePlan) (w : World Session) (o : IsOnline deployment ids plan w)
      → last_rebalanced_address deployment o.ready.policy ≡ landed o.ready.pda
  located_of plan w o = ap address (same_derived (o.ready.derived))
    where
      same_derived :
          derive_last_rebalanced_pda deployment.web3 ids o.ready.policy ≡ ok o.ready.pda
          → deployment.web3.find_program_address
              (literal last_rebalanced_seed ∷ key o.ready.policy ∷ [])
              deployment.swig_delegation_program
            ≡ ok o.ready.pda
      same_derived h = rw o.same_program at h

  -- The world after a plan was executed on chain: the event is logged, the limiting account is
  -- stamped, and the client has recorded the signature at its own clock.
  abbrev pub world_executed :
      RebalancePlan → PublicKey → PublicKey × ℕ → World Session → World Session
  world_executed plan policy pda w = record {
    env = record (w.env) { chain = after_execution (call_of plan policy wallet) pda w.env.chain };
    client = record (w.client) {
      write_cache =
          insert plan.position_id
            (record {
              last_tx_sig = deployment.signature w.env.chain.count;
              last_executed_at = w.env.date_ms;
            })
            w.client.write_cache;
    };
  }

  submit_executed :
      (plan : RebalancePlan) (w : World Session) (o : IsOnline deployment ids plan w)
      (cached : Option WriteEntry)
      → IsAllowed
          (call_of plan o.ready.policy wallet)
          w.env.chain.unix_timestamp
          (account_before o.ready.pda w)
      → submit_rebalance (session_host deployment wallet) plan o.ready.policy cached w ≡ (
        ok (deployment.signature w.env.chain.count),
        world_executed plan o.ready.policy o.ready.pda w,
      )
  unfolding submit_rebalance
  submit_executed plan w o cached allowed = ground (
    arith,
    send_landed deployment wallet (rebalance_instruction plan o.ready.policy) w.env
        (after_execution (call_of plan o.ready.policy wallet) o.ready.pda w.env.chain) o.connected
        (process_executed deployment wallet plan o.ready.policy w.env.chain o.ready.pda
          (located_of plan w o) allowed),
  )

  pub submit_refused :
      (plan : RebalancePlan) (w : World Session) (o : IsOnline deployment ids plan w)
      (cached : Option WriteEntry) (e : SwigDelegationError)
      → handle
          (call_of plan o.ready.policy wallet)
          w.env.chain.unix_timestamp
          o.ready.pda.1
          (account_before o.ready.pda w)
        ≡ SwigDelegation.err e
      → submit_rebalance (session_host deployment wallet) plan o.ready.policy cached w
        ≡ (rebalance_failed plan cached (deployment.error_text (swig e)), w)
  unfolding submit_rebalance
  submit_refused plan w o cached e refused = ground (
    arith,
    send_failed deployment wallet (rebalance_instruction plan o.ready.policy) w.env (swig e)
        o.connected
        (process_refused deployment wallet plan o.ready.policy w.env.chain o.ready.pda e
          (located_of plan w o) refused),
  )

  -- In a session that reaches the chain, with no fresh signature in the cache, a plan of at most
  -- 10000 basis points whose policy was not executed within the last 30 seconds is
  -- executed: the fixed amounts always pass the slippage gate.
  pub rebalance_executed :
      (plan : RebalancePlan) (w : World Session) (o : IsOnline deployment ids plan w)
      → cached_sig (session_host deployment wallet) deployment.web3 ids plan w ≡ none
      → ¬ (InWindow w.env.chain.unix_timestamp (account_before o.ready.pda w))
      → plan.size_bps ≤ 10000
      → execute_private_rebalance (session_host deployment wallet) deployment.web3 ids plan w ≡ (
        ok (deployment.signature w.env.chain.count),
        world_executed plan o.ready.policy o.ready.pda w,
      )
  rebalance_executed plan w o stale rate size =
      rebalance_submitted (session_host deployment wallet) deployment.web3 ids plan w o.ready stale
      ∙ submit_executed plan w o (lookup plan.position_id w.client.write_cache) (record {
        rate = rate;
        action_exit = refl;
        size_bounded = size;
        slippage_sane = omega arith;
        slippage_met = omega arith;
      })
