-- ===== src/Agents/Exit.antt =====
-- The whole agent process of agents/src/run.ts with the real client on the cluster: the demo's drift
-- curve ends in an exit on chain.
use risk_claw_sol.Prelude.{
  none, ℕ, zero, suc, ◌+◌, ◌≤◌, ◌<◌, ◌≡◌, inl, inr, List, [], ◌∷◌, Option, some, String, arith, ap,
  ◌∙◌, subst, sym, All, length, lookup, ◌⊎◌, Bool-cases, ltb,
}
use risk_claw_sol.Types.{PublicKey}
use risk_claw_sol.Errors.{Outcome, ok, Thrown}
use risk_claw_sol.Ids.{Ids}
use risk_claw_sol.Client.{World, CreateRealClientOpts, create_real_client}
use risk_claw_sol.Devnet.{Deployment}
use risk_claw_sol.Session.{Session, session_host}
use risk_claw_sol.Session.Rebalance.{IsOnline}
use risk_claw_sol.Session.Window.{NamesErrors}
use risk_claw_sol.Agents.Observer.{Observer, drift_curve}
use risk_claw_sol.Agents.Loop.{real_client, exit_plan, handle_metrics, position_ids}
use risk_claw_sol.Agents.Drift.{drift_curve_breaches}
use risk_claw_sol.Agents.Turns.{in_turn, run_turns, Warns}
use risk_claw_sol.Agents.Main.{
  after_handler, Process, main, observer_opts, run_ticks, drifted, turn_of, turns_of,
  position_ids-first, main-IsLive, IsLive,
}
use risk_claw_sol.Agents.Ticks.{alive, on_tick-turn, run_ticks-turns, run_ticks-calm}
use risk_claw_sol.Agents.Protection.{Acts, after_check, breach_acted_on}

-- The first `n` of the environments come at a time or before.
abbrev pub Early : ℕ → ℕ → List Session → Type 0
Early n since [] = Unit
Early zero since (s ∷ envs) = Unit
Early (suc n) since (s ∷ envs) = (s.date_ms ≤ since) × Early n since envs

-- From phase 38 to the end of the period the drift curve is in breach.
pub late_phase : (tick : ℕ) → 38 ≤ tick → tick < 60 → 2500 ≤ drift_curve tick
late_phase tick from to = (drift_curve_breaches tick).1 (omega arith)

module _ (deployment : Deployment) (wallet : PublicKey) (p : String) where
  pub turns-Warns :
      (n t since : ℕ) (envs : List Session)
      → Early n since envs
      → 37 ≤ t + n
      → t + length envs < 60
      → All
          (λ x. Warns p since x.metrics x.env.date_ms)
          (turns_of (session_host deployment wallet) p t envs)
  turns-Warns n t since [] early from to = tt
  turns-Warns zero t since (s ∷ envs) early from to = (
    λ h. inr (late_phase (suc t) (omega arith) (omega arith)),
    turns-Warns zero (suc t) since envs (early_zero since envs) (omega arith) (omega arith),
  )
    where
      early_zero : (since : ℕ) (envs : List Session) → Early zero since envs
      early_zero since [] = tt
      early_zero since (s ∷ envs) = tt
  turns-Warns (suc n) t since (s ∷ envs) early from to =
      (λ h. inl early.0, turns-Warns n (suc t) since envs early.1 (omega arith) (omega arith))

module _ (deployment : Deployment) (ids : Ids) (wallet : PublicKey)
    (new_web_socket : String → Outcome (Unit {0})) where
  -- The process with the real client over a session.
  abbrev pub agent_process :
      (key : String) (text : Option String) → List Session → Process Session → Process Session
  agent_process key text =
      run_ticks new_web_socket (observer_opts key text) (session_host deployment wallet)
        (real_client (session_host deployment wallet) deployment.web3 ids)

  -- What the tick after a process state makes of it.
  abbrev pub TickActs : String → Option String → String → ℕ → Session → Process Session → Type 0
  TickActs key text p tick env before =
      let t = turn_of (session_host deployment wallet) p tick env in
      let onchain = real_client (session_host deployment wallet) deployment.web3 ids in
      let w = after_check deployment ids wallet t before.world in
      let end = handle_metrics onchain t.metrics (in_turn t before.world) in
      (online : IsOnline deployment ids (exit_plan t.metrics) w) × Acts deployment ids wallet
        (exit_plan t.metrics) w online end
      × (agent_process key text (env ∷ []) before
          ≡ after_handler (record (before.observer) { tick = tick }) end)

  -- The agents as they are started, with a new client.
  abbrev pub new_process : Observer → CreateRealClientOpts → Session → Process Session
  new_process o opts start = record {
    observer = o;
    world = record { client = create_real_client opts; env = start };
    crashed = none;
  }

  -- A handler has thrown, in a tick after the 37th.
  abbrev pub Crashed : ℕ → Process Session → Type 0
  Crashed ticks process = (38 ≤ ticks) × (t : Thrown) × (process.crashed ≡ some t)

  module _ (key : String) (text : Option String) (p : String) (rest : List String)
      (first : position_ids text ≡ p ∷ rest) where
    abbrev pub alive_at : ℕ → Observer → World Session → Process Session
    alive_at =
        alive new_web_socket (observer_opts key text) p rest (session_host deployment wallet)
          (real_client (session_host deployment wallet) deployment.web3 ids)

    pub crash-Crashed :
        (envs : List Session) (o : Observer) (opts : CreateRealClientOpts) (start : Session)
        (t : Thrown)
        → IsLive o
        → o.tick ≡ 0
        → (agent_process key text envs (new_process o opts start)).crashed ≡ some t
        → Crashed (length envs) (agent_process key text envs (new_process o opts start))
    unfolding create_real_client lookup
    crash-Crashed envs o opts start t live new thrown = elim (Bool-cases (ltb (length envs) 38)) [
      | inr many ↦ (ground (arith, many), t, thrown)
      | inl few ↦
          let quiet =
            run_ticks-calm new_web_socket (observer_opts key text) p rest
              (session_host deployment wallet) deployment.web3 ids envs o
              (record { client = create_real_client opts; env = start }) first
              (position_ids-first text p rest first) live (ground (arith, few, new))
              (λ e found. cc) in
          cc (quiet, thrown)
    ]

    -- The process after ticks from its start.
    pub agent_process-turns :
        (envs : List Session) (o : Observer) (opts : CreateRealClientOpts) (start : Session)
        → IsLive o
        → o.tick ≡ 0
        → let after = agent_process key text envs (new_process o opts start) in
          ((t : Thrown) × (after.crashed ≡ some t))
          ⊎ (after
              ≡ alive_at (length envs) o (
                  run_turns
                    (real_client (session_host deployment wallet) deployment.web3 ids)
                    (turns_of (session_host deployment wallet) p 0 envs)
                    (record { client = create_real_client opts; env = start })))
    agent_process-turns envs o opts start live new =
        let host = session_host deployment wallet in
        let onchain = real_client host deployment.web3 ids in
        let w : World Session = record { client = create_real_client opts; env = start } in
        elim (run_ticks-turns new_web_socket (observer_opts key text) p rest host onchain envs o w
          first (position_ids-first text p rest first) live) [
            | inl crash ↦ inl crash
            | inr same ↦ inr (
                same
                ∙ ap
                    (λ (n : ℕ).
                      alive_at (n + length envs) o (run_turns onchain (turns_of host p n envs) w))
                    new
                ∙ ap (λ (n : ℕ). alive_at n o (run_turns onchain (turns_of host p 0 envs) w))
                    (omega arith))
          ]

  -- The agents are started with a key and positions of which `p` is the first, the chain's error texts
  -- name their errors, and the client is new. The timer fires 37 times at a time `since` or before, and
  -- at most 21 times more, whatever the cluster is at each of these ticks. Then no handler has thrown
  -- in the first 37 ticks. Unless one has in a later tick, the process acts on `p` if the timer fires
  -- at `since` plus the client's read throttle or later, in a session that reaches the chain: the
  -- signature that it has is still fresh; or the policy was not executed within the last 30 seconds,
  -- and its exit is executed; or it was, and the signature on record is given, if there is one.
  pub process_acts :
      (key : String) (text : Option String) (p : String) (rest : List String) (o : Observer)
      (opts : CreateRealClientOpts) (since : ℕ) (envs : List Session) (start env : Session)
      → NamesErrors deployment
      → main new_web_socket (some key) text ≡ (ok tt, o)
      → position_ids text ≡ p ∷ rest
      → Early 37 since envs
      → 37 ≤ length envs
      → length envs < 59
      → since + (create_real_client opts).read_throttle_ms ≤ env.date_ms
      → IsOnline deployment ids
          (exit_plan (drifted p 0 0))
          (record { client = create_real_client opts; env = env })
      → let before = agent_process key text envs (new_process o opts start) in
        Crashed (length envs) before ⊎ TickActs key text p (suc (length envs)) env before
  unfolding run_ticks create_real_client lookup
  process_acts key text p rest o opts since envs start env names started first early many few late
        online =
      let (live, new) = main-IsLive new_web_socket key text o started in
      let host = session_host deployment wallet in
      let onchain = real_client host deployment.web3 ids in
      let w : World Session = record { client = create_real_client opts; env = start } in
      let w' : World Session = run_turns onchain (turns_of host p 0 envs) w in
      let o' : Observer = record o { tick = length envs } in
      let (reached, acts) =
        breach_acted_on deployment ids wallet since (turns_of host p 0 envs)
          (turn_of host p (suc (length envs)) env) w names (λ e found. cc)
          (turns-Warns deployment wallet p 37 0 since envs early (omega arith) (omega (arith, few)))
          (late_phase (suc (length envs)) (omega (arith, many)) (omega (arith, few))) late online in
      elim (agent_process-turns key text p rest first envs o opts start live new) [
        | inl (t, thrown) ↦
            inl (crash-Crashed key text p rest first envs o opts start t live new thrown)
        | inr same ↦ inr (
            subst (TickActs key text p (suc (length envs)) env) (sym same) (
              reached,
              acts,
              on_tick-turn new_web_socket (observer_opts key text) p rest host onchain env o' w'
                  first (position_ids-first text p rest first)
                  (record { has_handler = live.has_handler; has_timer = live.has_timer }),
            ))
      ]
