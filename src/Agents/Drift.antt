-- ===== src/Agents/Drift.antt =====
-- The demo's drift curve against the client's threshold of 2500 basis points.
use risk_claw_sol.Prelude.{ℕ, ◌+◌, ◌%◌, ◌≤◌, ◌≡◌, arith, ◌↔◌}
use risk_claw_sol.Agents.Observer.{drift_curve}

-- The curve repeats every 60 ticks and never exceeds 3933.
pub drift_curve_bounds : (t : ℕ) → (drift_curve t ≤ 3933) × (drift_curve (t + 60) ≡ drift_curve t)
unfolding drift_curve
drift_curve_bounds t = ground arith

-- Within a period the curve does not fall.
pub drift_curve_mono : (t u : ℕ) → t % 60 ≤ u % 60 → drift_curve t ≤ drift_curve u
unfolding drift_curve
drift_curve_mono t u h = ground arith

-- The drift curve is at or over 2500 basis points exactly in the phases from 38 on, of 60.
pub drift_curve_breaches : (t : ℕ) → (2500 ≤ drift_curve t) ↔ (38 ≤ t % 60)
unfolding drift_curve
drift_curve_breaches t = ((λ h. ground arith), (λ h. ground arith))
