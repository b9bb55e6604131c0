-- ===== src/Circuit/Stub.antt =====
-- The client's placeholder beside the circuit that it stands for.
use risk_claw_sol.Prelude.{ℕ, ◌≤◌, ◌<◌, ◌≡◌, arith}
use risk_claw_sol.Types.{PositionMetrics}
use risk_claw_sol.Client.{evaluate}
use risk_claw_sol.Circuit.{compare}

-- The client's answer for these metrics is the circuit's for some score.
abbrev pub IsAnswer : {Enc : Type 0} → (Enc → ℕ) → Enc → PositionMetrics → Type 0
IsAnswer to_arcis t m =
    (score : ℕ) × (compare to_arcis t score ≡ ((evaluate m).breached, (evaluate m).score))

-- The circuit returns the score that it was given, and compares it with the threshold. For two
-- positions of which the one in breach has the smaller notional, as in the demo's ladder, no threshold
-- and no scores give the answers of the client's placeholder.
pub no_threshold_explains :
    {Enc : Type 0} (to_arcis : Enc → ℕ) (t : Enc) (calm breached : PositionMetrics)
    → calm.drawdown_bps < 2500
    → 2500 ≤ breached.drawdown_bps
    → breached.notional_usd ≤ calm.notional_usd
    → ¬ (IsAnswer to_arcis t calm × IsAnswer to_arcis t breached)
unfolding compare evaluate
no_threshold_explains to_arcis t calm breached low high smaller ((s, a), (r, b)) = ground arith
