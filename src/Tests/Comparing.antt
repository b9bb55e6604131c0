-- ===== src/Tests/Comparing.antt =====
-- The circuit on thresholds that are not encrypted, and the ranges of the form.
use risk_claw_sol.Prelude.{ℕ, ◌≡◌, ◌↔◌, List, [], ◌∷◌, map, some, true, arith, All}
use risk_claw_sol.Circuit.{compare}
use risk_claw_sol.Circuit.Leakage.{Indistinct, search_by_halves, compare_reveals}
use risk_claw_sol.Circuit.Stub.{IsAnswer, no_threshold_explains}
use risk_claw_sol.Session.{Session, session_host}
use risk_claw_sol.App.PolicyPage.{Event, Field, edits, submits, settles, run}
use risk_claw_sol.App.PolicyPage.Inputs.{input_of}
use risk_claw_sol.App.PolicyPage.Ranges.{IsDelivered, IsSound, run-IsSound}
use risk_claw_sol.Tests.Fixture.{deployment, ids, metrics}
use risk_claw_sol.Tests.Pages.{app}

abbrev plain : ℕ → ℕ
plain t = t

compare_reveals_example :
    ((map (compare plain 2500) (100 ∷ 9500 ∷ []) ≡ map (compare plain 9000) (100 ∷ 9500 ∷ []))
      ↔ Indistinct 2500 9000 (100 ∷ 9500 ∷ []))
    × (search_by_halves (λ score. (compare plain 2500 score).0) 64 0 ≡ 2500)
compare_reveals_example = compare_reveals plain 2500 9000 (100 ∷ 9500 ∷ []) (omega arith)

-- Both of the same notional.
no_threshold_explains_example :
    ¬ (IsAnswer plain 5000 (metrics 500) × IsAnswer plain 5000 (metrics 3500))
no_threshold_explains_example =
    no_threshold_explains plain 5000 (metrics 500) (metrics 3500) (omega arith) (omega arith)
      (omega arith)

abbrev moves : List (Event Session)
moves = edits Field.drawdown_limit 9900 ∷ submits ∷ edits Field.max_slippage 0 ∷ settles ∷ []

moves-IsDelivered : All IsDelivered moves
unfolding input_of
moves-IsDelivered = (λ form. omega arith, (tt, (λ form. omega arith, (tt, tt))))

run-IsSound_example :
    IsSound (run (some 7) true (session_host deployment) deployment.web3 ids moves app)
run-IsSound_example =
    run-IsSound (some 7) true (session_host deployment) deployment.web3 ids moves app
      moves-IsDelivered
      (record {
        form = record {
          drawdown_low = omega arith;
          drawdown_high = omega arith;
          slippage = omega arith;
        };
        calls = tt;
      })
