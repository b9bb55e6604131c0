-- ===== src/Agents/Unwritten.antt =====
-- The handler of agents/src/run.ts and the client's write cache: empty while nothing is in breach, and
-- what the first turn in breach then does.
use risk_claw_sol.Prelude.{
  ℕ, suc, ◌+◌, ◌≤◌, ◌<◌, ◌≡◌, refl, inl, inr, List, [], ◌∷◌, some, String, arith, ap, ◌∙◌, length,
  lookup,
}
use risk_claw_sol.Types.{PublicKey}
use risk_claw_sol.Errors.{ok}
use risk_claw_sol.Ids.{Web3, Ids}
use risk_claw_sol.Programs.SwigDelegation.Gates.{InWindow}
use risk_claw_sol.Client.{Host, World, RealClient, check_threshold_breach, fresh_write}
use risk_claw_sol.Client.Checks.{check_at-cases}
use risk_claw_sol.Devnet.{Deployment}
use risk_claw_sol.Devnet.Execution.{stored_or_new}
use risk_claw_sol.Session.{Session, session_host}
use risk_claw_sol.Session.Rebalance.{IsOnline, world_executed, rebalance_executed}
use risk_claw_sol.Agents.Loop.{real_client, exit_plan, execute, handle_metrics, sent}
use risk_claw_sol.Agents.Turns.{Turn, in_turn, run_turns, call, checked_client, IsAlert}
use risk_claw_sol.Agents.Calm.{IsCalmOn, calm_turn}
use risk_claw_sol.Agents.Ticks.{early_phase}
use risk_claw_sol.Agents.Main.{turn_of, turns_of}
use risk_claw_sol.Agents.Protection.{after_check, check-breached}

module _ {E : Type 0} (host : Host E) (web3 : Web3) (ids : Ids) where
  -- A check leaves the write cache alone.
  checked-writes :
      (t : Turn E) (c : RealClient) → (checked_client host web3 ids t c).write_cache ≡ c.write_cache
  checked-writes t c = elim (check_at-cases (call t.metrics (host.date_now t.env)) c) [
    | inl fresh ↦ ap (λ r. (r.1).write_cache) fresh
    | inr (e, found, young, hit) ↦ ap (λ r. (r.1).write_cache) hit
  ]

  -- Nothing is written in the turns before the curve is in breach.
  pub calm-writes :
      (p : String) (envs : List E) (t : ℕ) (w : World E)
      → t + length envs < 38
      → IsCalmOn p w.client
      → (run_turns (real_client host web3 ids) (turns_of host p t envs) w).client.write_cache
        ≡ w.client.write_cache
  unfolding run_turns
  calm-writes p [] t w early calm = refl
  calm-writes p (env ∷ envs) t w early calm =
      let turn : Turn E = turn_of host p (suc t) env in
      let (handled, still) =
        calm_turn host web3 ids turn w (early_phase (suc t) (omega (arith, early))) calm in
      let next : World E = record {
        client = checked_client host web3 ids turn w.client;
        env = env;
      } in
      ap
        (λ r.
          (run_turns (real_client host web3 ids) (turns_of host p (suc t) envs)
            (r.1)).client.write_cache)
        handled
      ∙ calm-writes p envs (suc t) next (omega (arith, early)) still
      ∙ checked-writes turn w.client

module _ (deployment : Deployment) (ids : Ids) (wallet : PublicKey) where
  -- A turn in breach of a client with nothing written, on a chain that may execute the exit.
  pub turn_exits :
      (since : ℕ) (t : Turn Session) (w : World Session)
      → IsAlert t.metrics.position_id since w.client
      → 2500 ≤ t.metrics.drawdown_bps
      → since + w.client.read_throttle_ms ≤ t.env.date_ms
      → w.client.write_cache ≡ []
      → (o : IsOnline deployment ids (exit_plan t.metrics) (after_check deployment ids wallet t w))
      → ¬ (InWindow t.env.chain.unix_timestamp (stored_or_new t.env.chain o.ready.pda.0))
      → handle_metrics
          (real_client (session_host deployment wallet) deployment.web3 ids)
          t.metrics
          (in_turn t w)
        ≡ (
          ok (some (deployment.signature t.env.chain.count)),
          world_executed deployment ids wallet
              (exit_plan t.metrics)
              o.ready.policy
              o.ready.pda
              (after_check deployment ids wallet t w),
        )
  unfolding handle_metrics check_threshold_breach execute fresh_write lookup
  turn_exits since t w alert breach late empty o free =
      let host = session_host deployment wallet in
      let w' = after_check deployment ids wallet t w in
      let unwritten = checked-writes host deployment.web3 ids t w.client ∙ empty in
      rw (check-breached since t.env.date_ms t.metrics w.client alert breach late) (
        ap sent (
          rebalance_executed deployment ids wallet (exit_plan t.metrics) w' o
            (ap
              (λ cache.
                fresh_write w'.client.write_throttle_ms t.env.date_ms
                  (lookup t.metrics.position_id cache))
              unwritten)
            free (omega arith)))
