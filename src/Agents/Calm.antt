-- ===== src/Agents/Calm.antt =====
-- agents/src/run.ts on a position that is not in breach: the handler does nothing but the check, and
-- does not throw.
use risk_claw_sol.Prelude.{
  ℕ, ◌<◌, ◌≡◌, refl, inl, inr, false, none, some, String, ◌∙◌, subst, sym, some_path, lookup,
  lookup-insert_self,
}
use risk_claw_sol.Types.{PositionMetrics, ThresholdCheckResult}
use risk_claw_sol.Errors.{ok}
use risk_claw_sol.Ids.{Web3, Ids}
use risk_claw_sol.Client
use risk_claw_sol.Client.{Host, World, RealClient, ReadEntry, check_at, check_threshold_breach}
use risk_claw_sol.Client.Checks.{check_at-cases}
use risk_claw_sol.Agents.Loop.{real_client, handle_metrics}
use risk_claw_sol.Agents.Guard.{calm_result}
use risk_claw_sol.Agents.Turns.{Turn, in_turn, call, checked_client}

-- No verdict on the position that the client has on record is a breach.
abbrev pub IsCalmOn : String → RealClient → Type 0
IsCalmOn p c = (e : ReadEntry) → lookup p c.read_cache ≡ some e → e.last_result.breached ≡ false

-- A verdict that is no breach, and a client whose verdicts are none.
abbrev Quiet : String → ThresholdCheckResult × RealClient → Type 0
Quiet p (result, c) = (result.breached ≡ false) × IsCalmOn p c

check-Quiet :
    (now : ℕ) (m : PositionMetrics) (c : RealClient)
    → m.drawdown_bps < 2500
    → IsCalmOn m.position_id c
    → Quiet m.position_id (check_at m.position_id m now c)
check-Quiet now m c low calm =
    let p = m.position_id in
    let entry : ReadEntry = record { last_checked_at = now; last_result = Client.evaluate m } in
    elim (check_at-cases (call m now) c) [
      | inl fresh ↦ subst (Quiet p) (sym fresh) (
        calm_result m low,
        λ e found.
            subst (λ (x : ReadEntry). x.last_result.breached ≡ false)
              (some_path (sym (lookup-insert_self p entry c.read_cache) ∙ found))
              (calm_result m low),
      )
      | inr (e, found, young, hit) ↦ subst (Quiet p) (sym hit) (calm e found, calm)
    ]

module _ {E : Type 0} (host : Host E) (web3 : Web3) (ids : Ids) where
  -- A turn below the threshold, with no breach on record.
  pub calm_turn :
      (t : Turn E) (w : World E)
      → t.metrics.drawdown_bps < 2500
      → IsCalmOn t.metrics.position_id w.client
      → (handle_metrics (real_client host web3 ids) t.metrics (in_turn t w)
          ≡ (ok none, record { client = checked_client host web3 ids t w.client; env = t.env }))
        × IsCalmOn t.metrics.position_id (checked_client host web3 ids t w.client)
  unfolding handle_metrics check_threshold_breach
  calm_turn t w low calm =
      let (quiet, still) = check-Quiet (host.date_now t.env) t.metrics w.client low calm in
      (rw quiet refl, still)
