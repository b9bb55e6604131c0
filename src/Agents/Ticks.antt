-- ===== src/Agents/Ticks.antt =====
-- The ticks of the process of agents/src/run.ts as turns of its handler, until one throws.
use risk_claw_sol.Prelude.{
  ℕ, suc, ◌+◌, ◌<◌, ◌≡◌, refl, ◌⊎◌, inl, inr, false, List, [], ◌∷◌, Option, none, some, String,
  ◌is◌, arith, ap, ◌∙◌, subst, sym, length,
}
use risk_claw_sol.Types.{TxSig}
use risk_claw_sol.Errors.{Outcome, throws, Thrown, Outcome-cases}
use risk_claw_sol.Ids.{Web3, Ids}
use risk_claw_sol.Client.{Host, World}
use risk_claw_sol.Agents.Observer.{Observer, ObserverOpts, drift_curve}
use risk_claw_sol.Agents.Loop.{OnchainClient, real_client, handle_metrics}
use risk_claw_sol.Agents.Turns.{Turn, in_turn, run_turns, checked_client}
use risk_claw_sol.Agents.Calm.{IsCalmOn, calm_turn}
use risk_claw_sol.Agents.Main.{
  Process, after_handler, handled, on_tick, run_ticks, turn_of, turns_of, IsLive, tick-step,
}

module _ (new_web_socket : String → Outcome (Unit {0})) (opts : ObserverOpts) (p : String)
    (rest : List String) {E : Type 0} (host : Host E) (onchain : OnchainClient (World E)) where
  -- A process that no throw has ended, at a tick.
  abbrev pub alive : ℕ → Observer → World E → Process E
  alive n o w = record { observer = record o { tick = n }; world = w; crashed = none }

  abbrev pub tick_result : E → Observer → World E → Outcome (Option TxSig) × World E
  tick_result env o w =
      handle_metrics onchain (turn_of host p (suc o.tick) env).metrics
        (in_turn (turn_of host p (suc o.tick) env) w)

  pub on_tick-turn :
      (env : E) (o : Observer) (w : World E)
      → opts.position_ids ≡ p ∷ rest
      → (p is "") ≡ false
      → IsLive o
      → on_tick new_web_socket opts host onchain env (alive o.tick o w)
        ≡ after_handler (record o { tick = suc o.tick }) (tick_result env o w)
  unfolding on_tick
  on_tick-turn env o w first named live =
      ap (λ r. handled new_web_socket opts host onchain env r w)
        (tick-step new_web_socket opts p rest (host.date_now env) o first named live)

  run_ticks-crashed :
      (envs : List E) (o : Observer) (w : World E) (t : Thrown)
      → (run_ticks new_web_socket opts host onchain envs (after_handler o (throws t, w))).crashed
        ≡ some t
  unfolding run_ticks on_tick
  run_ticks-crashed [] o w t = refl
  run_ticks-crashed (env ∷ envs) o w t = run_ticks-crashed envs o w t

  -- A live Observer's ticks are turns of the handler with the metrics of the drift curve, unless a
  -- handler has thrown.
  pub run_ticks-turns :
      (envs : List E) (o : Observer) (w : World E)
      → opts.position_ids ≡ p ∷ rest
      → (p is "") ≡ false
      → IsLive o
      → let after = run_ticks new_web_socket opts host onchain envs (alive o.tick o w) in
        ((t : Thrown) × (after.crashed ≡ some t))
        ⊎ (after
            ≡ alive (o.tick + length envs) o (run_turns onchain (turns_of host p o.tick envs) w))
  unfolding run_ticks run_turns
  run_ticks-turns [] o w first named live = inr (ap (λ (n : ℕ). alive n o w) (omega arith))
  run_ticks-turns (env ∷ envs) o w first named live =
      let o' : Observer = record o { tick = suc o.tick } in
      let r = tick_result env o w in
      let turn = on_tick-turn env o w first named live in
      let run = run_ticks new_web_socket opts host onchain envs in
      let ends : Process E → Type 0 = λ q.
        ((t : Thrown) × (q.crashed ≡ some t))
        ⊎ (q
            ≡ alive (o.tick + suc (length envs)) o
                (run_turns onchain (turns_of host p o.tick (env ∷ envs)) w)) in
      elim (Outcome-cases r.0) [
        | inl (t, thrown) ↦ inl (
          t,
          ap (λ q. (run q).crashed) (turn ∙ ap (λ x. after_handler o' (x, r.1)) thrown)
              ∙ run_ticks-crashed envs o' r.1 t,
        )
        | inr (sig, done) ↦
            subst (λ q. ends (run q)) (sym (turn ∙ ap (λ x. after_handler o' (x, r.1)) done))
              (elim (run_ticks-turns envs o' r.1 first named
                (record { has_handler = live.has_handler; has_timer = live.has_timer })) [
                  | inl crash ↦ inl crash
                  | inr same ↦ inr (
                      same
                      ∙ ap
                          (λ (n : ℕ).
                            alive n o (run_turns onchain (turns_of host p o.tick (env ∷ envs)) w))
                          (omega arith))
                ])
      ]

-- Before phase 38 of the first period the drift curve is not in breach.
pub early_phase : (tick : ℕ) → tick < 38 → drift_curve tick < 2500
unfolding drift_curve
early_phase tick early = ground arith

module _ (new_web_socket : String → Outcome (Unit {0})) (opts : ObserverOpts) (p : String)
    (rest : List String) {E : Type 0} (host : Host E) (web3 : Web3) (ids : Ids) where
  -- The first 37 ticks with the real client do not end the process.
  pub run_ticks-calm :
      (envs : List E) (o : Observer) (w : World E)
      → opts.position_ids ≡ p ∷ rest
      → (p is "") ≡ false
      → IsLive o
      → o.tick + length envs < 38
      → IsCalmOn p w.client
      → (run_ticks new_web_socket opts host
          (real_client host web3 ids)
          envs
          (alive new_web_socket opts p rest host (real_client host web3 ids) o.tick o w)).crashed
        ≡ none
  unfolding run_ticks
  run_ticks-calm [] o w first named live early calm = refl
  run_ticks-calm (env ∷ envs) o w first named live early calm =
      let onchain = real_client host web3 ids in
      let o' : Observer = record o { tick = suc o.tick } in
      let t : Turn E = turn_of host p (suc o.tick) env in
      let (handled, still) =
        calm_turn host web3 ids t w (early_phase (suc o.tick) (omega (arith, early))) calm in
      ap (λ q. (run_ticks new_web_socket opts host onchain envs q).crashed)
        (on_tick-turn new_web_socket opts p rest host onchain env o w first named live
          ∙ ap (after_handler o') handled)
      ∙ run_ticks-calm envs o'
          (record { client = checked_client host web3 ids t w.client; env = env }) first named
          (record { has_handler = live.has_handler; has_timer = live.has_timer })
          (omega (arith, early)) still
