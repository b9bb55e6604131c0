-- ===== src/Session/Window.antt =====
-- `executePrivateRebalance` within the chain's window of 30 seconds, and two calls that overlap.
use risk_claw_sol.Prelude.{
  ◌≤◌, ◌<◌, ◌≡◌, Option, none, some, arith, ==_refl, ap, ◌∙◌, true, false, lookup,
  lookup-insert_self, codes, contains_ci,
}
use risk_claw_sol.Types.{PublicKey, TxSig, RebalancePlan}
use risk_claw_sol.Errors.{Outcome, ok, throws, Thrown}
use risk_claw_sol.Ids.{Ids}
use risk_claw_sol.Programs.SwigDelegation.{rebalance_too_soon}
use risk_claw_sol.Programs.SwigDelegation.Gates.{InWindow, handle-err_iff}
use risk_claw_sol.Client.{
  World, WriteEntry, execute_private_rebalance, submit_rebalance, rebalance_failed,
  onchain_rejection_error,
}
use risk_claw_sol.Client.Rebalance.{cached_sig, rebalance_submitted}
use risk_claw_sol.Devnet.{Deployment, swig}
use risk_claw_sol.Session.Rebalance.{
  call_of, account_before, IsOnline, world_executed, submit_refused, rebalance_executed,
}
use risk_claw_sol.Session.{Session, session_host}

-- What the client's `catch` reads in the error texts: each names its error, and no other.
pub record NamesErrors (deployment : Deployment) : Type 0 where
  pub too_soon :
      contains_ci
        (codes "RebalanceTooSoon")
        (codes (deployment.error_text (swig rebalance_too_soon)))
      ≡ true
  pub too_soon_not_slippage :
      contains_ci
        (codes "SlippageTooHigh")
        (codes (deployment.error_text (swig rebalance_too_soon)))
      ≡ false
  pub too_soon_not_missing :
      contains_ci (codes "NotImplemented") (codes (deployment.error_text (swig rebalance_too_soon)))
      ≡ false

abbrev pub rejected_too_soon : Deployment → Thrown
rejected_too_soon deployment =
    onchain_rejection_error "executePrivateRebalance failed"
      (some (deployment.error_text (swig rebalance_too_soon)))

-- What a call within the chain's window ends with, by the entry that it had read.
abbrev pub too_soon_outcome : Deployment → Option WriteEntry → Outcome TxSig
too_soon_outcome deployment none = throws (rejected_too_soon deployment)
too_soon_outcome deployment (some e) = ok e.last_tx_sig

too_soon-failed :
    (deployment : Deployment) (plan : RebalancePlan) (o : Option WriteEntry)
    → NamesErrors deployment
    → rebalance_failed plan o (deployment.error_text (swig rebalance_too_soon))
      ≡ too_soon_outcome deployment o
unfolding rebalance_failed
too_soon-failed deployment plan none n = rw (n.too_soon_not_slippage, n.too_soon_not_missing)
too_soon-failed deployment plan (some e) n = rw n.too_soon

module _ (deployment : Deployment) (ids : Ids) (wallet : PublicKey) where
  submit_too_soon :
      (plan : RebalancePlan) (w : World Session) (o : IsOnline deployment ids plan w)
      (cached : Option WriteEntry)
      → NamesErrors deployment
      → InWindow w.env.chain.unix_timestamp (account_before o.ready.pda w)
      → submit_rebalance (session_host deployment wallet) plan o.ready.policy cached w
        ≡ (too_soon_outcome deployment cached, w)
  submit_too_soon plan w o cached n soon =
      submit_refused deployment ids wallet plan w o cached rebalance_too_soon (
        (handle-err_iff rebalance_too_soon (call_of plan o.ready.policy wallet)
            w.env.chain.unix_timestamp o.ready.pda.1 (account_before o.ready.pda w)).1
          soon)
      ∙ ap (λ r. (r, w)) (too_soon-failed deployment plan cached n)

  -- In a session that reaches the chain, with no fresh signature in the cache, for a policy executed
  -- less than 30 seconds ago, nothing is executed and the client is unchanged: the call gives the
  -- signature that it has on record for the position, however old, or throws if it has none.
  pub rebalance_within_window :
      (plan : RebalancePlan) (w : World Session) (o : IsOnline deployment ids plan w)
      → NamesErrors deployment
      → cached_sig (session_host deployment wallet) deployment.web3 ids plan w ≡ none
      → InWindow w.env.chain.unix_timestamp (account_before o.ready.pda w)
      → execute_private_rebalance (session_host deployment wallet) deployment.web3 ids plan w
        ≡ (too_soon_outcome deployment (lookup plan.position_id w.client.write_cache), w)
  rebalance_within_window plan w o n stale soon =
      rebalance_submitted (session_host deployment wallet) deployment.web3 ids plan w o.ready stale
      ∙ submit_too_soon plan w o (lookup plan.position_id w.client.write_cache) n soon

  online_after :
      (plan : RebalancePlan) (w : World Session) (o : IsOnline deployment ids plan w)
      → IsOnline deployment ids plan
          (world_executed deployment ids wallet plan o.ready.policy o.ready.pda w)
  online_after plan w o = record {
    ready = record {
      policy = o.ready.policy;
      program = o.ready.program;
      pda = o.ready.pda;
      action_exit = o.ready.action_exit;
      has_program = o.ready.has_program;
      program_set = o.ready.program_set;
      parsed = o.ready.parsed;
      derived = o.ready.derived;
    };
    same_program = o.same_program;
    connected = o.connected;
  }

  soon_after :
      (plan : RebalancePlan) (w : World Session) (o : IsOnline deployment ids plan w)
      → 0 < w.env.chain.unix_timestamp
      → InWindow w.env.chain.unix_timestamp (
          account_before o.ready.pda
            (world_executed deployment ids wallet plan o.ready.policy o.ready.pda w))
  soon_after plan w o clock = rw (==_refl o.ready.pda.0) (omega arith)

  -- Two overlapping calls for one position, in a session that reaches a chain that may execute the
  -- plan: the second has read an empty cache before the first was confirmed. The first is recorded;
  -- the second throws, although the client then holds the signature.
  pub overlapping_call_throws :
      (plan : RebalancePlan) (w : World Session) (o : IsOnline deployment ids plan w)
      → NamesErrors deployment
      → 0 < w.env.chain.unix_timestamp
      → cached_sig (session_host deployment wallet) deployment.web3 ids plan w ≡ none
      → lookup plan.position_id w.client.write_cache ≡ none
      → ¬ (InWindow w.env.chain.unix_timestamp (account_before o.ready.pda w))
      → plan.size_bps ≤ 10000
      → let w' =
          (execute_private_rebalance
            (session_host deployment wallet)
            deployment.web3
            ids
            plan
            w).1 in
        (submit_rebalance
            (session_host deployment wallet)
            plan
            o.ready.policy
            (lookup plan.position_id w.client.write_cache)
            w'
          ≡ (throws (rejected_too_soon deployment), w'))
        × (lookup plan.position_id w'.client.write_cache
            ≡ some (record {
              last_tx_sig = deployment.signature w.env.chain.count;
              last_executed_at = w.env.date_ms;
            }))
  unfolding online_after
  overlapping_call_throws plan w o n clock stale empty rate size =
      rw (rebalance_executed deployment ids wallet plan w o stale rate size) (
        rw empty (
            submit_too_soon plan
              (world_executed deployment ids wallet plan o.ready.policy o.ready.pda w)
              (online_after plan w o) none n (soon_after plan w o clock)),
        lookup-insert_self plan.position_id
            (record {
              last_tx_sig = deployment.signature w.env.chain.count;
              last_executed_at = w.env.date_ms;
            })
            w.client.write_cache,
      )
