-- ===== src/Agents/Protection.antt =====
-- The agents on the cluster: the handler of run.ts with the real client over a session, once a position
-- has been in breach for a read window.
use risk_claw_sol.Prelude.{
  ℕ, ◌+◌, ◌≤◌, ◌≡◌, refl, ◌⊎◌, inl, inr, true, List, Option, none, some, arith, ap, ◌∙◌, subst, sym,
  lookup, Option-cases, All,
}
use risk_claw_sol.Types.{PublicKey, PositionMetrics, RebalancePlan, ThresholdCheckResult, TxSig}
use risk_claw_sol.Errors.{Outcome, ok}
use risk_claw_sol.Ids.{Ids}
use risk_claw_sol.Client.{
  World, RealClient, ReadEntry, check_at, check_threshold_breach, execute_private_rebalance,
}
use risk_claw_sol.Client.Rebalance.{cached_sig, rebalance_cached}
use risk_claw_sol.Client.Checks.{check_at-cases}
use risk_claw_sol.Programs.SwigDelegation.{LastRebalanced}
use risk_claw_sol.Programs.SwigDelegation.Gates.{InWindow}
use risk_claw_sol.Devnet.{Deployment}
use risk_claw_sol.Session.{Session, session_host}
use risk_claw_sol.Session.Rebalance.{account_before, IsOnline, world_executed, rebalance_executed}
use risk_claw_sol.Session.Window.{NamesErrors, too_soon_outcome, rebalance_within_window}
use risk_claw_sol.Agents.Loop.{real_client, exit_plan, execute, handle_metrics, sent}
use risk_claw_sol.Agents.Turns.{
  Turn, in_turn, run_turns, Warns, IsAlert, call, evaluate-breached, check-IsKept, turns-IsAlert,
}

InWindow-cases : (now : ℕ) (lr : LastRebalanced) → InWindow now lr ⊎ ¬ (InWindow now lr)
InWindow-cases now lr = ground arith

-- Once every calm verdict on the position is older than the read window, a metric in breach is
-- reported as a breach.
pub check-breached :
    (since now : ℕ) (m : PositionMetrics) (c : RealClient)
    → IsAlert m.position_id since c
    → 2500 ≤ m.drawdown_bps
    → since + c.read_throttle_ms ≤ now
    → (check_at m.position_id m now c).0.breached ≡ true
check-breached since now m c alert breach late = elim (check_at-cases (call m now) c) [
  | inl fresh ↦
      ap (λ (r : ThresholdCheckResult × RealClient). r.0.breached) fresh
      ∙ evaluate-breached m breach
  | inr (e, found, young, hit) ↦ elim (alert e found) [
    | inl old ↦ absurd (omega (arith, old, young, late))
    | inr reported ↦ ap (λ (r : ThresholdCheckResult × RealClient). r.0.breached) hit ∙ reported
  ]
]

module _ (deployment : Deployment) (ids : Ids) (wallet : PublicKey) where
  online_as :
      (plan : RebalancePlan) (w w' : World Session)
      → w'.client.swig_delegation ≡ w.client.swig_delegation
      → w'.env ≡ w.env
      → IsOnline deployment ids plan w
      → IsOnline deployment ids plan w'
  online_as plan w w' same_swig same_env o = record {
    ready = record {
      policy = o.ready.policy;
      program = o.ready.program;
      pda = o.ready.pda;
      action_exit = o.ready.action_exit;
      has_program = same_swig ∙ o.ready.has_program;
      program_set = o.ready.program_set;
      parsed = o.ready.parsed;
      derived = o.ready.derived;
    };
    same_program = o.same_program;
    connected = ap (λ (s : Session). s.link) same_env ∙ o.connected;
  }

  -- How the Guardian's turn ends on a breach: it has a signature that is fresh enough; or the policy
  -- may be executed and is; or it was executed within the chain's window, by this or another client.
  abbrev pub Acts :
      (plan : RebalancePlan) (w : World Session)
      → IsOnline deployment ids plan w
      → Outcome (Option TxSig) × World Session
      → Type 0
  Acts plan w o end =
      let cached = cached_sig (session_host deployment wallet) deployment.web3 ids plan w in
      let soon = InWindow w.env.chain.unix_timestamp (account_before o.ready.pda w) in
      ((sig : TxSig) × (cached ≡ some sig) × (end ≡ (ok (some sig), w)))
      ⊎ ((cached ≡ none)
          × ¬ soon
          × (end ≡ (
            ok (some (deployment.signature w.env.chain.count)),
            world_executed deployment ids wallet plan o.ready.policy o.ready.pda w,
          )))
      ⊎ ((cached ≡ none)
          × soon
          × (end
              ≡ sent
                  (too_soon_outcome deployment (lookup plan.position_id w.client.write_cache), w)))

  execute-Acts :
      (plan : RebalancePlan) (w : World Session) (o : IsOnline deployment ids plan w)
      → NamesErrors deployment
      → plan.size_bps ≤ 10000
      → Acts plan w o (
          sent
            (execute_private_rebalance (session_host deployment wallet) deployment.web3 ids plan w))
  execute-Acts plan w o names size =
      elim (Option-cases (cached_sig (session_host deployment wallet) deployment.web3 ids plan w)) [
        | inr (sig, fresh) ↦ inl (
          sig,
          fresh,
          ap sent (
              rebalance_cached (session_host deployment wallet) deployment.web3 ids plan w o.ready
                fresh),
        )
        | inl stale ↦
            elim (InWindow-cases w.env.chain.unix_timestamp (account_before o.ready.pda w)) [
              | inr free ↦ inr (
                  inl (
                    stale,
                    free,
                    ap sent (rebalance_executed deployment ids wallet plan w o stale free size),
                  ))
              | inl soon ↦ inr (
                  inr (
                    stale,
                    soon,
                    ap sent
                        (rebalance_within_window deployment ids wallet plan w o names stale soon),
                  ))
            ]
      ]

  -- The world after the check of a turn, in which the Guardian acts.
  abbrev pub after_check : Turn Session → World Session → World Session
  after_check t w =
      (check_threshold_breach (session_host deployment wallet) t.metrics.position_id t.metrics
        (in_turn t w)).1

  turn-Acts :
      (since : ℕ) (t : Turn Session) (w : World Session)
      → NamesErrors deployment
      → IsAlert t.metrics.position_id since w.client
      → 2500 ≤ t.metrics.drawdown_bps
      → since + w.client.read_throttle_ms ≤ t.env.date_ms
      → (o : IsOnline deployment ids (exit_plan t.metrics) (after_check t w))
      → Acts (exit_plan t.metrics) (after_check t w) o (
          handle_metrics
            (real_client (session_host deployment wallet) deployment.web3 ids)
            t.metrics
            (in_turn t w))
  unfolding handle_metrics check_threshold_breach execute
  turn-Acts since t w names alert breach late o =
      rw (check-breached since t.env.date_ms t.metrics w.client alert breach late)
        (execute-Acts (exit_plan t.metrics) (after_check t w) o names (omega arith))

  pub online_after_check :
      (t : Turn Session) (w w' : World Session)
      → w'.client.swig_delegation ≡ w.client.swig_delegation
      → IsOnline deployment ids (exit_plan t.metrics) (in_turn t w)
      → IsOnline deployment ids (exit_plan t.metrics) (after_check t w')
  unfolding check_threshold_breach
  online_after_check t w w' same o =
      let kept = check-IsKept (session_host deployment wallet) deployment.web3 ids t w'.client in
      online_as (exit_plan t.metrics) (in_turn t w) (after_check t w') (kept.same_swig ∙ same) refl
        o

  -- The chain's error texts name their errors, a client's verdicts on a position were given at a time
  -- `since` at the latest, and every metric of the position that the turns to come handle after `since`
  -- is in breach, whatever else is handled and whatever the cluster does. Then a turn of the position
  -- in breach at `since` plus the client's read throttle or later, in a session that reaches the chain,
  -- acts: it gives the signature that is still fresh; or the policy was not executed within the last
  -- 30 seconds, and its exit is executed; or it was, and the call gives the signature on record, or
  -- throws if there is none.
  pub breach_acted_on :
      (since : ℕ) (ts : List (Turn Session)) (t : Turn Session) (w : World Session)
      → NamesErrors deployment
      → ((e : ReadEntry)
          → lookup t.metrics.position_id w.client.read_cache ≡ some e
          → e.last_checked_at ≤ since)
      → All (λ x. Warns t.metrics.position_id since x.metrics x.env.date_ms) ts
      → 2500 ≤ t.metrics.drawdown_bps
      → since + w.client.read_throttle_ms ≤ t.env.date_ms
      → IsOnline deployment ids (exit_plan t.metrics) (in_turn t w)
      → let onchain = real_client (session_host deployment wallet) deployment.web3 ids in
        let w' = run_turns onchain ts w in
        (o : IsOnline deployment ids (exit_plan t.metrics) (after_check t w')) × Acts
          (exit_plan t.metrics)
          (after_check t w')
          o
          (handle_metrics onchain t.metrics (in_turn t w'))
  breach_acted_on since ts t w names older warned breach late online =
      let host = session_host deployment wallet in
      let (alert, kept) =
        turns-IsAlert host deployment.web3 ids t.metrics.position_id since ts w warned
          (λ e found. inl (older e found)) in
      let w' = run_turns (real_client host deployment.web3 ids) ts w in
      let o = online_after_check t w w' kept.same_swig online in
      (
        o,
        turn-Acts since t w' names alert breach
            (subst (λ n. since + n ≤ t.env.date_ms) (sym kept.same_read_throttle) late) o,
      )
