-- ===== src/Tests/Protecting.antt =====
-- A calm verdict hides a breach for the rest of its throttle window; the turn after it acts.
use risk_claw_sol.Prelude.{
  ℕ, zero, suc, All, true, none, ◌≡◌, refl, List, [], ◌∷◌, ◌≤◌, false, arith, inr, some, lookup,
  subst, some_path,
}
use risk_claw_sol.Errors.{ok}
use risk_claw_sol.Client.{World, ReadEntry, CreateRealClientOpts, create_real_client}
use risk_claw_sol.Agents.Observer.{Observer, create_observer, start, on_metrics}
use risk_claw_sol.Agents.Main.{main, drifted}
use risk_claw_sol.Agents.Exit.{new_process, agent_process}
use risk_claw_sol.Agents.FirstBreach.{IsExited, process_exits}
use risk_claw_sol.Session.{Session, session_host}
use risk_claw_sol.Session.Rebalance.{IsOnline}
use risk_claw_sol.Agents.Loop.{real_client, exit_plan, handle_metrics, position_ids}
use risk_claw_sol.Agents.Turns.{Turn, in_turn, run_turns}
use risk_claw_sol.Agents.Protection.{after_check, Acts, breach_acted_on}
use risk_claw_sol.Tests.Fixture.{deployment, ids, wallet, world, metrics}
use risk_claw_sol.Tests.Sessions.{online, names_errors}

abbrev turn_at : ℕ → Turn Session
turn_at now = record { metrics = metrics 3000; env = record (world.env) { date_ms = now } }

-- The verdict was given at 995000; the first turn still gets it.
abbrev calm_entry : ReadEntry
calm_entry = record {
  last_checked_at = 995000;
  last_result = record { breached = false; score = 9000 };
}

abbrev calm_world : World Session
calm_world = record world {
  client = record (world.client) { read_cache = ("pos", calm_entry) ∷ [] };
}

abbrev turns : List (Turn Session)
turns = turn_at 998000 ∷ []

abbrev online_calm :
    IsOnline deployment ids (exit_plan (metrics 3000)) (in_turn (turn_at 1000000) calm_world)
online_calm = record {
  ready = record {
    policy = online.ready.policy;
    program = online.ready.program;
    pda = online.ready.pda;
    action_exit = refl;
    has_program = refl;
    program_set = refl;
    parsed = refl;
    derived = refl;
  };
  same_program = refl;
  connected = refl;
}

older :
    (e : ReadEntry)
    → lookup "pos" calm_world.client.read_cache ≡ some e
    → e.last_checked_at ≤ 995000
unfolding lookup
older e found =
    subst (λ (x : ReadEntry). x.last_checked_at ≤ 995000) (some_path found) (omega arith)

breach_acted_on_example :
    let onchain = real_client (session_host deployment wallet) deployment.web3 ids in
    let w' = run_turns onchain turns calm_world in
    (o : IsOnline deployment ids
      (exit_plan (metrics 3000))
      (after_check deployment ids wallet (turn_at 1000000) w'))
    × Acts deployment ids wallet
        (exit_plan (metrics 3000))
        (after_check deployment ids wallet (turn_at 1000000) w')
        o
        (handle_metrics onchain (metrics 3000) (in_turn (turn_at 1000000) w'))
breach_acted_on_example =
    breach_acted_on deployment ids wallet 995000 turns (turn_at 1000000) calm_world names_errors
      older ((λ h. inr (omega arith)), tt) (omega arith) (omega arith) online_calm

abbrev opts : CreateRealClientOpts
opts = record {
  read_throttle_ms = none;
  write_throttle_ms = none;
  risk_policy_idl = true;
  swig_delegation_idl = true;
}

has_program_new : (create_real_client opts).swig_delegation ≡ true
unfolding create_real_client
has_program_new = refl

abbrev online_new :
    IsOnline deployment ids
      (exit_plan (drifted "pos" 0 0))
      (record { client = create_real_client opts; env = world.env })
online_new = record {
  ready = record {
    policy = online.ready.policy;
    program = online.ready.program;
    pda = online.ready.pda;
    action_exit = refl;
    has_program = has_program_new;
    program_set = refl;
    parsed = refl;
    derived = refl;
  };
  same_program = refl;
  connected = refl;
}

-- The process of run.ts: its first 37 ticks, all at one time; the 38th is in breach.
abbrev early_env : Session
early_env = record (world.env) { date_ms = 900000 }

abbrev early_envs : ℕ → List Session
early_envs zero = []
early_envs (suc n) = early_env ∷ early_envs n

early_envs-early : (n : ℕ) → All (λ (s : Session). s.date_ms ≤ 900000) (early_envs n)
early_envs-early zero = tt
early_envs-early (suc n) = (omega arith, early_envs-early n)

abbrev started : Observer
started = record { handler = true; ws = true; interval = true; started = true; tick = 0 }

process_exits_example :
    IsExited deployment ids wallet "pos" 7565168
      (7565168002, 254)
      world.env
      (agent_process deployment ids wallet
        (λ url. ok tt)
        "key"
        (some "pos")
        (world.env ∷ [])
        (agent_process deployment ids wallet
          (λ url. ok tt)
          "key"
          (some "pos")
          (early_envs 37)
          (new_process deployment ids wallet (λ url. ok tt) started opts early_env)))
unfolding create_real_client main start on_metrics create_observer position_ids
process_exits_example =
    process_exits deployment ids wallet (λ url. ok tt) "key" (some "pos") "pos" [] started opts
      900000 (early_envs 37) early_env world.env refl refl (early_envs-early 37) (omega arith)
      (omega arith) online_new (omega arith)
