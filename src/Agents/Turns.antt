-- ===== src/Agents/Turns.antt =====
-- agents/src/run.ts over time: the handler takes its turns, and between them the environment becomes
-- what it will. What the client's read cache then holds for a position that stays in breach.
use risk_claw_sol.Prelude.{
  ℕ, ◌≤◌, ◌≡◌, refl, ◌⊎◌, inl, inr, true, List, [], ◌∷◌, some, String, arith, ap, ◌∙◌, subst, sym,
  some_path, lookup, lookup-insert, eq_iff, ◌is◌, Bool-cases, All,
}
use risk_claw_sol.Types.{PositionMetrics, ThresholdCheckResult, TxSig}
use risk_claw_sol.Errors.{Outcome, ok, throws}
use risk_claw_sol.Ids.{Web3, Ids}
use risk_claw_sol.Client
use risk_claw_sol.Client.{
  Host, World, RealClient, ReadEntry, check_at, check_threshold_breach, execute_private_rebalance,
}
use risk_claw_sol.Client.Checks.{CheckCall, check_at-cases, renewed}
use risk_claw_sol.Client.Idempotency.{Ends, execute_private_rebalance-Ends}
use risk_claw_sol.Agents.Loop.{
  OnchainClient, real_client, exit_plan, execute, handle_metrics, decide, sent,
}

-- A metric, and the environment in which its handler runs.
pub record Turn (E : Type 0) : Type 0 where
  pub metrics : PositionMetrics
  pub env : E

abbrev pub in_turn : {E : Type 0} → Turn E → World E → World E
in_turn turn w = record w { env = turn.env }

-- The handlers of run.ts, one after another.
unfoldable pub run_turns :
    {E : Type 0} → OnchainClient (World E) → List (Turn E) → World E → World E
run_turns onchain [] w = w
run_turns onchain (t ∷ ts) w =
    run_turns onchain ts (handle_metrics onchain t.metrics (in_turn t w)).1

-- The metric is of another position, or is handled at `since` at the latest, or is in breach.
abbrev pub Warns : String → ℕ → PositionMetrics → ℕ → Type 0
Warns p since m now = (m.position_id ≡ p) → (now ≤ since) ⊎ (2500 ≤ m.drawdown_bps)

-- What the client has on record for the position was given at `since` at the latest, or is a breach.
abbrev pub IsAlert : String → ℕ → RealClient → Type 0
IsAlert p since c =
    (e : ReadEntry)
    → lookup p c.read_cache ≡ some e
    → (e.last_checked_at ≤ since) ⊎ (e.last_result.breached ≡ true)

pub evaluate-breached :
    (m : PositionMetrics) → 2500 ≤ m.drawdown_bps → (Client.evaluate m).breached ≡ true
unfolding Client.evaluate
evaluate-breached m h = ground arith

abbrev pub call : PositionMetrics → ℕ → CheckCall
call m now = record { position_id = m.position_id; metrics = m; at = now }

renewed-IsAlert :
    (p : String) (since now : ℕ) (m : PositionMetrics) (c : RealClient)
    → Warns p since m now
    → IsAlert p since c
    → IsAlert p since (renewed (call m now) c)
renewed-IsAlert p since now m c warns alert e found =
    let entry : ReadEntry = record { last_checked_at = now; last_result = Client.evaluate m } in
    let here = sym (lookup-insert m.position_id p entry c.read_cache) ∙ found in
    elim (Bool-cases (m.position_id is p)) [
      | inl same ↦
          let is_entry : entry ≡ e = some_path (rw same at here) in
          subst (λ (x : ReadEntry). (x.last_checked_at ≤ since) ⊎ (x.last_result.breached ≡ true))
            is_entry
            (elim (warns ((eq_iff m.position_id p).0 same)) [
              | inl early ↦ inl early
              | inr breach ↦ inr (evaluate-breached m breach)
            ])
      | inr other ↦ alert e (rw other at here)
    ]

check-IsAlert :
    (p : String) (since now : ℕ) (m : PositionMetrics) (c : RealClient)
    → Warns p since m now
    → IsAlert p since c
    → IsAlert p since (check_at m.position_id m now c).1
check-IsAlert p since now m c warns alert = elim (check_at-cases (call m now) c) [
  | inl fresh ↦ rw fresh (renewed-IsAlert p since now m c warns alert)
  | inr (e, found, young, hit) ↦ rw hit alert
]

-- What a turn leaves of the client, beside the write cache.
pub record IsSteady (c c' : RealClient) : Type 0 where
  pub same_reads : c'.read_cache ≡ c.read_cache
  pub same_read_throttle : c'.read_throttle_ms ≡ c.read_throttle_ms
  pub same_swig : c'.swig_delegation ≡ c.swig_delegation

Ends-IsSteady :
    {E : Type 0} (k : String) (c : RealClient) (r : Outcome TxSig × World E)
    → Ends k c r
    → IsSteady c (sent r).1.client
Ends-IsSteady k c (ok sig, w) h = record {
  same_reads = h.0.same_reads;
  same_read_throttle = h.0.same_read_throttle;
  same_swig = h.0.same_swig;
}
Ends-IsSteady k c (throws t, w) h = record {
  same_reads = ap (λ (d : RealClient). d.read_cache) h;
  same_read_throttle = ap (λ (d : RealClient). d.read_throttle_ms) h;
  same_swig = ap (λ (d : RealClient). d.swig_delegation) h;
}

-- A client with the same settings.
pub record IsKept (c c' : RealClient) : Type 0 where
  pub same_read_throttle : c'.read_throttle_ms ≡ c.read_throttle_ms
  pub same_swig : c'.swig_delegation ≡ c.swig_delegation

same-IsKept :
    (c c' : RealClient) (r : ThresholdCheckResult) (q : ThresholdCheckResult × RealClient)
    → q ≡ (r, c')
    → IsKept c c'
    → IsKept c q.1
same-IsKept c c' r q same kept =
    subst (λ (v : ThresholdCheckResult × RealClient). IsKept c v.1) (sym same) kept

module _ {E : Type 0} (host : Host E) (web3 : Web3) (ids : Ids) where
  decide-IsSteady :
      (m : PositionMetrics) (result : ThresholdCheckResult) (w : World E)
      → IsSteady w.client (decide (real_client host web3 ids) m (ok result, w)).1.client
  unfolding execute
  decide-IsSteady m result w = elim (Bool-cases result.breached) [
    | inl breach ↦ rw breach (
        Ends-IsSteady m.position_id w.client
          (execute_private_rebalance host web3 ids (exit_plan m) w)
          (execute_private_rebalance-Ends host web3 ids (exit_plan m) w))
    | inr calm ↦ rw calm (record { same_reads = refl; same_read_throttle = refl; same_swig = refl })
  ]

  -- The client after the check of a turn.
  abbrev pub checked_client : Turn E → RealClient → RealClient
  checked_client t c = (check_at t.metrics.position_id t.metrics (host.date_now t.env) c).1

  turn-IsSteady :
      (t : Turn E) (w : World E)
      → IsSteady
          (checked_client t w.client)
          (handle_metrics (real_client host web3 ids) t.metrics (in_turn t w)).1.client
  unfolding handle_metrics check_threshold_breach
  turn-IsSteady t w =
      let (result, c) = check_at t.metrics.position_id t.metrics (host.date_now t.env) w.client in
      decide-IsSteady t.metrics result (record { client = c; env = t.env })

  pub check-IsKept : (t : Turn E) (c : RealClient) → IsKept c (checked_client t c)
  check-IsKept t c =
      let x = call t.metrics (host.date_now t.env) in
      let same : IsKept c c = record { same_read_throttle = refl; same_swig = refl } in
      let after = check_at x.position_id x.metrics x.at c in
      elim (check_at-cases x c) [
        | inl fresh ↦
            same-IsKept c (renewed x c) (Client.evaluate t.metrics) after fresh
              (record { same_read_throttle = refl; same_swig = refl })
        | inr (e, found, young, hit) ↦ same-IsKept c c e.last_result after hit same
      ]

  -- If the position stays in breach after `since`, then after the turns no verdict on it that was given after
  -- `since` is calm, and the client's settings are the same.
  pub turns-IsAlert :
      (p : String) (since : ℕ) (ts : List (Turn E)) (w : World E)
      → All (λ t. Warns p since t.metrics (host.date_now t.env)) ts
      → IsAlert p since w.client
      → let c = (run_turns (real_client host web3 ids) ts w).client in
        IsAlert p since c × IsKept w.client c
  unfolding run_turns
  turns-IsAlert p since [] w warn alert =
      (alert, record { same_read_throttle = refl; same_swig = refl })
  turns-IsAlert p since (t ∷ ts) w warn alert =
      let next = (handle_metrics (real_client host web3 ids) t.metrics (in_turn t w)).1 in
      let steady = turn-IsSteady t w in
      let kept = check-IsKept t w.client in
      let checked = check-IsAlert p since (host.date_now t.env) t.metrics w.client warn.0 alert in
      let (later, same) =
        turns-IsAlert p since ts next warn.1
          (λ e found. checked e (ap (lookup p) (sym steady.same_reads) ∙ found)) in
      (
        later,
        record {
          same_read_throttle =
              same.same_read_throttle ∙ steady.same_read_throttle ∙ kept.same_read_throttle;
          same_swig = same.same_swig ∙ steady.same_swig ∙ kept.same_swig;
        },
      )
