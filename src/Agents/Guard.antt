-- ===== src/Agents/Guard.antt =====
-- What the loop may do: with the stub, nothing; with the real client, one EXIT, and only on a breach.
use risk_claw_sol.Prelude.{
  ℕ, ◌<◌, ◌≡◌, refl, ◌⊎◌, inl, inr, true, false, List, [], ◌∷◌, map, Option, none, arith, All, ap,
  subst, sym, ◌∙◌, Bool-cases,
}
use risk_claw_sol.Types.{PositionMetrics, ThresholdCheckResult, TxSig}
use risk_claw_sol.Errors.{Outcome, ok, throws}
use risk_claw_sol.Ids.{Web3, Ids}
use risk_claw_sol.Client
use risk_claw_sol.Client.{
  Host, World, RealClient, rebalance_instruction, check_at, check_threshold_breach,
  execute_private_rebalance,
}
use risk_claw_sol.Client.Rebalance.{IsReady}
use risk_claw_sol.Client.Checks.{
  CheckCall, FromPast, AllExplained, run_checks, run_checks_explained,
}
use risk_claw_sol.Client.Idempotency.{execute_private_rebalance_sends}
use risk_claw_sol.Agents.Loop.{
  stub_client, real_client, exit_plan, execute, handle_metrics, run_loop, decide, sent,
}

abbrev nothing_done : List PositionMetrics → List (Outcome (Option TxSig))
nothing_done = map (λ m. ok none)

-- Behind the stub no metric is ever acted on, and the state is untouched.
pub run_loop-stub :
    {W : Type 0} (ms : List PositionMetrics) (w : W)
    → run_loop stub_client ms w ≡ (nothing_done ms, w)
unfolding run_loop handle_metrics
run_loop-stub [] w = refl
run_loop-stub (m ∷ ms) w = ap (λ r. (ok none ∷ r.0, r.1)) (run_loop-stub ms w)

sent-world : {W : Type 0} (r : Outcome TxSig × W) → (sent r).1 ≡ r.1
sent-world (ok sig, w) = refl
sent-world (throws t, w) = refl

module _ {E : Type 0} (host : Host E) (web3 : Web3) (ids : Ids) where
  -- The world after the check of a metric, in which the Guardian acts.
  abbrev pub checked : PositionMetrics → World E → Outcome ThresholdCheckResult × World E
  checked m w = check_threshold_breach host m.position_id m w

  -- What the Guardian's turn does to the environment `env`, after a check that left the world `w'`.
  abbrev pub Guarded : PositionMetrics → E → Outcome ThresholdCheckResult × World E → E → Type 0
  Guarded m env (o, w') env' =
      (env' ≡ env)
      ⊎ ((result : ThresholdCheckResult) × (ready : IsReady web3 ids (exit_plan m) w'.client) × (o
            ≡ ok result)
          × (result.breached ≡ true)
          × (env' ≡ (host.send (rebalance_instruction (exit_plan m) ready.policy) env).1))

  decide-Guarded :
      (m : PositionMetrics) (result : ThresholdCheckResult) (w : World E)
      → Guarded m w.env (ok result, w) (decide (real_client host web3 ids) m (ok result, w)).1.env
  unfolding execute
  decide-Guarded m result w = elim (Bool-cases result.breached) [
    | inr calm ↦ inl (rw calm refl)
    | inl breach ↦
        let acted = execute_private_rebalance host web3 ids (exit_plan m) w in
        let env_is : (decide (real_client host web3 ids) m (ok result, w)).1.env ≡ (acted.1).env =
          rw breach (ap (λ v. v.env) (sent-world acted)) in
        elim (execute_private_rebalance_sends host web3 ids (exit_plan m) w) [
          | inl same ↦ inl (env_is ∙ same)
          | inr (ready, stale, one) ↦ inr (result, ready, refl, breach, env_is ∙ one)
        ]
  ]

  -- One metric: the environment is left alone, or the check has reported a breach and the one
  -- transaction of an EXIT of 10000 basis points for the metric's position was sent.
  pub handle_metrics-Guarded :
      (m : PositionMetrics) (w : World E)
      → Guarded m w.env (checked m w) (handle_metrics (real_client host web3 ids) m w).1.env
  unfolding handle_metrics check_threshold_breach
  handle_metrics-Guarded m w =
      let (result, c) = check_at m.position_id m (host.date_now w.env) w.client in
      decide-Guarded m result (record w { client = c })

-- A call whose metrics are under the threshold.
abbrev pub IsCalm : CheckCall → Type 0
IsCalm x = x.metrics.drawdown_bps < 2500

pub calm_result :
    (m : PositionMetrics) → m.drawdown_bps < 2500 → (Client.evaluate m).breached ≡ false
unfolding Client.evaluate
calm_result m h = ground arith

calm-FromPast :
    (window : ℕ) (past : List CheckCall) (x : CheckCall) (r : ThresholdCheckResult)
    → All IsCalm past
    → FromPast window past x r
    → r.breached ≡ false
calm-FromPast window [] x r h f = absurd f
calm-FromPast window (p ∷ past) x r h (inl f) =
    ap (λ (v : ThresholdCheckResult). v.breached) f.1 ∙ calm_result p.metrics h.0
calm-FromPast window (p ∷ past) x r h (inr f) = calm-FromPast window past x r h.1 f

calm_results :
    (window : ℕ) (past xs : List CheckCall) (rs : List ThresholdCheckResult)
    → All IsCalm past
    → All IsCalm xs
    → AllExplained window past xs rs
    → All (λ r. r.breached ≡ false) rs
calm_results window past [] rs h k e = subst (All (λ r. r.breached ≡ false)) (sym e) tt
calm_results window past (x ∷ xs) [] h k e = absurd e
calm_results window past (x ∷ xs) (r ∷ rs) h k (inl own, e) = (
  ap (λ (v : ThresholdCheckResult). v.breached) own ∙ calm_result x.metrics k.0,
  calm_results window (x ∷ past) xs rs (k.0, h) k.1 e,
)
calm_results window past (x ∷ xs) (r ∷ rs) h k (inr old, e) =
    (calm-FromPast window past x r h old, calm_results window (x ∷ past) xs rs (k.0, h) k.1 e)

-- From an empty cache, no breach is reported in a run of calls whose metrics all stay under the
-- threshold.
pub no_false_alarm :
    (xs : List CheckCall) (c : RealClient)
    → c.read_cache ≡ []
    → All IsCalm xs
    → All (λ r. r.breached ≡ false) (run_checks c xs).0
no_false_alarm xs c empty calm =
    calm_results c.read_throttle_ms [] xs (run_checks c xs).0 tt calm
      (run_checks_explained xs c empty)
