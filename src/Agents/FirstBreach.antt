-- ===== src/Agents/FirstBreach.antt =====
-- The agent process of agents/src/run.ts with the real client on the cluster: its 38th tick, the first
-- in breach, exits the position.
use risk_claw_sol.Prelude.{
  ℕ, zero, suc, ◌+◌, ◌≤◌, ◌≡◌, refl, inl, inr, List, [], ◌∷◌, All, Option, none, some, String,
  arith, ap, ◌∙◌, subst, sym, length, ap₂, lookup, lookup-insert_self,
}
use risk_claw_sol.Types.{PublicKey}
use risk_claw_sol.Errors.{Outcome, ok}
use risk_claw_sol.Ids.{Ids}
use risk_claw_sol.Programs.SwigDelegation.Gates.{InWindow}
use risk_claw_sol.Client.{
  World, WriteEntry, RealClient, CreateRealClientOpts, create_real_client, check_threshold_breach,
}
use risk_claw_sol.Devnet.{Deployment}
use risk_claw_sol.Devnet.Execution.{after_execution, stored_or_new}
use risk_claw_sol.Session.{Session, session_host}
use risk_claw_sol.Session.Rebalance.{call_of, IsOnline}
use risk_claw_sol.Agents.Observer.{Observer, drift_curve}
use risk_claw_sol.Agents.Loop.{real_client, exit_plan, position_ids}
use risk_claw_sol.Agents.Turns.{Turn, run_turns, turns-IsAlert, IsAlert, check-IsKept}
use risk_claw_sol.Agents.Ticks.{on_tick-turn}
use risk_claw_sol.Agents.Main.{
  Process, after_handler, main, observer_opts, run_ticks, drifted, turn_of, turns_of,
  position_ids-first, main-IsLive, IsLive,
}
use risk_claw_sol.Agents.Protection.{after_check}
use risk_claw_sol.Agents.Unwritten.{calm-writes, turn_exits}
use risk_claw_sol.Agents.Exit.{
  Early, late_phase, turns-Warns, agent_process, new_process, alive_at, agent_process-turns,
  crash-Crashed,
}

All-Early :
    (n since : ℕ) (envs : List Session) → All (λ s. s.date_ms ≤ since) envs → Early n since envs
All-Early n since [] h = tt
All-Early zero since (s ∷ envs) h = tt
All-Early (suc n) since (s ∷ envs) h = (h.0, All-Early n since envs h.1)

module _ (deployment : Deployment) (ids : Ids) (wallet : PublicKey) where
  -- What an exit of a position leaves in an environment: the process goes on, the exit is executed on
  -- chain, and the client has its signature on record.
  pub record IsExited (p : String) (policy : PublicKey) (pda : PublicKey × ℕ) (env : Session)
      (after : Process Session) : Type 0 where
    pub running : after.crashed ≡ none
    pub on_chain : after.world.env ≡ record env {
      chain = after_execution (call_of (exit_plan (drifted p 0 0)) policy wallet) pda env.chain;
    }
    pub recorded :
        lookup p after.world.client.write_cache
        ≡ some (record {
          last_tx_sig = deployment.signature env.chain.count;
          last_executed_at = env.date_ms;
        })

  module _ (new_web_socket : String → Outcome (Unit {0})) where
    -- The session after the check of the tick still reaches the chain.
    online_checked :
        (t : Turn Session) (c : RealClient) (w : World Session)
        → w.client.swig_delegation ≡ c.swig_delegation
        → (online : IsOnline deployment ids
            (exit_plan t.metrics)
            (record { client = c; env = t.env }))
        → (o : IsOnline deployment ids
            (exit_plan t.metrics)
            (after_check deployment ids wallet t w))
          × (o.ready.policy ≡ online.ready.policy)
          × (o.ready.pda ≡ online.ready.pda)
    unfolding check_threshold_breach
    online_checked t c w same online =
        let kept = check-IsKept (session_host deployment wallet) deployment.web3 ids t w.client in
        (
          record {
            ready = record {
              policy = online.ready.policy;
              program = online.ready.program;
              pda = online.ready.pda;
              action_exit = online.ready.action_exit;
              has_program = kept.same_swig ∙ same ∙ online.ready.has_program;
              program_set = online.ready.program_set;
              parsed = online.ready.parsed;
              derived = online.ready.derived;
            };
            same_program = online.same_program;
            connected = online.connected;
          },
          refl,
          refl,
        )

    -- The tick in breach of a process whose client has written nothing.
    tick-IsExited :
        (key : String) (text : Option String) (p : String) (rest : List String) (o : Observer)
        (since tick : ℕ) (c : RealClient) (w : World Session) (env : Session)
        (first : position_ids text ≡ p ∷ rest)
        → IsLive o
        → IsAlert p since w.client
        → 2500 ≤ drift_curve (suc tick)
        → since + w.client.read_throttle_ms ≤ env.date_ms
        → w.client.write_cache ≡ []
        → w.client.swig_delegation ≡ c.swig_delegation
        → (online : IsOnline deployment ids
            (exit_plan (drifted p 0 0))
            (record { client = c; env = env }))
        → ¬ (InWindow env.chain.unix_timestamp (stored_or_new env.chain online.ready.pda.0))
        → IsExited p online.ready.policy online.ready.pda env (
            agent_process deployment ids wallet new_web_socket key text
              (env ∷ [])
              (alive_at deployment ids wallet new_web_socket key text p rest first tick o w))
    unfolding run_ticks check_threshold_breach
    tick-IsExited key text p rest o since tick c w env first live alert breach late empty same
          online free =
        let host = session_host deployment wallet in
        let o' : Observer = record o { tick = tick } in
        let t = turn_of host p (suc tick) env in
        let (reached, policy_same, pda_same) = online_checked t c w same online in
        let free' =
          subst
            (λ (pda : PublicKey × ℕ).
              ¬ (InWindow env.chain.unix_timestamp (stored_or_new env.chain pda.0)))
            (sym pda_same) free in
        let entry : WriteEntry = record {
          last_tx_sig = deployment.signature env.chain.count;
          last_executed_at = env.date_ms;
        } in
        let ticked =
          on_tick-turn new_web_socket (observer_opts key text) p rest host
            (real_client host deployment.web3 ids) env o' w first
            (position_ids-first text p rest first)
            (record { has_handler = live.has_handler; has_timer = live.has_timer })
          ∙ ap (after_handler (record o { tick = suc tick }))
              (turn_exits deployment ids wallet since t w alert breach late empty reached free') in
        subst (IsExited p online.ready.policy online.ready.pda env) (sym ticked) (record {
          running = refl;
          on_chain =
              ap₂
                (λ policy pda. record env {
                  chain =
                      after_execution (call_of (exit_plan (drifted p 0 0)) policy wallet) pda
                        env.chain;
                })
                policy_same pda_same;
          recorded =
              lookup-insert_self p entry (after_check deployment ids wallet t w).client.write_cache;
        })

    -- The agents are started with a key and positions of which `p` is the first, and with a new client.
    -- The timer fires 37 times, at a time `since` at the latest, whatever the cluster is at each of
    -- these ticks. If it then fires at `since` plus the client's read throttle or later, in a session
    -- that reaches a chain where the policy `p` was not executed within the last 30 seconds, then this
    -- tick executes the exit of 10000 basis points on chain, the client records its signature, and the
    -- process goes on.
    pub process_exits :
        (key : String) (text : Option String) (p : String) (rest : List String) (o : Observer)
        (opts : CreateRealClientOpts) (since : ℕ) (envs : List Session) (start env : Session)
        → main new_web_socket (some key) text ≡ (ok tt, o)
        → position_ids text ≡ p ∷ rest
        → All (λ s. s.date_ms ≤ since) envs
        → length envs ≡ 37
        → since + (create_real_client opts).read_throttle_ms ≤ env.date_ms
        → (online : IsOnline deployment ids
            (exit_plan (drifted p 0 0))
            (record { client = create_real_client opts; env = env }))
        → ¬ (InWindow env.chain.unix_timestamp (stored_or_new env.chain online.ready.pda.0))
        → IsExited p online.ready.policy online.ready.pda env (
            agent_process deployment ids wallet new_web_socket key text (env ∷ []) (
              agent_process deployment ids wallet new_web_socket key text envs
                (new_process deployment ids wallet new_web_socket o opts start)))
    unfolding run_ticks create_real_client lookup check_threshold_breach
    process_exits key text p rest o opts since envs start env started first early count late online
          free =
        let host = session_host deployment wallet in
        let onchain = real_client host deployment.web3 ids in
        let (live, new) = main-IsLive new_web_socket key text o started in
        let w : World Session = record { client = create_real_client opts; env = start } in
        let early37 = All-Early 37 since envs early in
        let (alert, kept) =
          turns-IsAlert host deployment.web3 ids p since (turns_of host p 0 envs) w
            (turns-Warns deployment wallet p 37 0 since envs early37 (omega arith)
              (omega (arith, count)))
            (λ e found. cc) in
        let w' : World Session = run_turns onchain (turns_of host p 0 envs) w in
        let exits =
          tick-IsExited key text p rest o since (length envs) (create_real_client opts) w' env first
            live alert
            (late_phase (suc (length envs)) (omega (arith, count)) (omega (arith, count)))
            (subst (λ n. since + n ≤ env.date_ms) (sym kept.same_read_throttle) late)
            (calm-writes host deployment.web3 ids p envs 0 w (omega (arith, count)) (λ e found. cc))
            kept.same_swig online free in
        elim (agent_process-turns deployment ids wallet new_web_socket key text p rest first envs o
          opts start live new) [
            | inl (t, thrown) ↦
                let crash =
                  crash-Crashed deployment ids wallet new_web_socket key text p rest first envs o
                    opts start t live new thrown in
                absurd (omega (arith, crash.0, count))
            | inr same ↦
                subst
                  (λ (q : Process Session).
                    IsExited p online.ready.policy online.ready.pda env
                      (agent_process deployment ids wallet new_web_socket key text (env ∷ []) q))
                  (sym same) exits
          ]
