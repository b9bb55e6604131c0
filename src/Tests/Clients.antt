-- ===== src/Tests/Clients.antt =====
-- The client's caches and its calls, at concrete worlds.
use risk_claw_sol.Prelude.{◌≡◌, ◌⊎◌, refl, arith, List, [], ◌∷◌, none, lookup, insert}
use risk_claw_sol.Errors.{ok}
use risk_claw_sol.Programs.SwigDelegation.{handle}
use risk_claw_sol.Client.{
  World, execute_private_rebalance, rebalance_instruction, fresh_write, submit_rebalance,
  finish_rebalance,
}
use risk_claw_sol.Client.Rebalance.{IsReady, cached_sig}
use risk_claw_sol.Client.Checks.{CheckCall, run_checks, AllExplained, run_checks_explained}
use risk_claw_sol.Client.Idempotency.{
  Ends, execute_private_rebalance-Ends, execute_private_rebalance_sends, rebalance_repeated,
}
use risk_claw_sol.Session.{Session, session_host}
use risk_claw_sol.Devnet.{process}
use risk_claw_sol.Tests.Fixture.{deployment, ids, wallet, client, world, plan, metrics}

-- Calm, then a breach that the cache hides, then one that is reported.
abbrev checks : List CheckCall
checks =
    record { position_id = "pos"; metrics = metrics 100; at = 1000 }
    ∷ record { position_id = "pos"; metrics = metrics 3000; at = 5999 }
    ∷ record { position_id = "pos"; metrics = metrics 3000; at = 6000 }
    ∷ []

run_checks_explained_example :
    AllExplained client.read_throttle_ms [] checks (run_checks client checks).0
run_checks_explained_example = run_checks_explained checks client refl

execute_private_rebalance-Ends_example :
    Ends "pos" client
      (execute_private_rebalance (session_host deployment wallet) deployment.web3 ids plan world)
execute_private_rebalance-Ends_example =
    execute_private_rebalance-Ends (session_host deployment wallet) deployment.web3 ids plan world

execute_private_rebalance_sends_example :
    ((execute_private_rebalance
        (session_host deployment wallet)
        deployment.web3
        ids
        plan
        world).1.env
      ≡ world.env)
    ⊎ ((ready : IsReady deployment.web3 ids plan client) × (cached_sig
            (session_host deployment wallet)
            deployment.web3
            ids
            plan
            world
          ≡ none)
        × ((execute_private_rebalance
              (session_host deployment wallet)
              deployment.web3
              ids
              plan
              world).1.env
            ≡ ((session_host deployment wallet).send
                (rebalance_instruction plan ready.policy)
                world.env).1))
execute_private_rebalance_sends_example =
    execute_private_rebalance_sends (session_host deployment wallet) deployment.web3 ids plan world

-- The world after the plan's first execution, and 29 seconds later.
abbrev executed_world : World Session
executed_world =
    (execute_private_rebalance (session_host deployment wallet) deployment.web3 ids plan world).1

abbrev later : Session
later = record (executed_world.env) { date_ms = 1029000 }

first_sig :
    execute_private_rebalance (session_host deployment wallet) deployment.web3 ids plan world
    ≡ (ok "5first", executed_world)
unfolding execute_private_rebalance submit_rebalance finish_rebalance fresh_write process lookup
    handle
first_sig = refl

rebalance_repeated_example :
    execute_private_rebalance
      (session_host deployment wallet)
      deployment.web3
      ids
      plan
      (record executed_world { env = later })
    ≡ (ok "5first", record executed_world { env = later })
unfolding execute_private_rebalance submit_rebalance finish_rebalance fresh_write process lookup
    handle insert
rebalance_repeated_example =
    rebalance_repeated (session_host deployment wallet) deployment.web3 ids plan plan world
      executed_world later first_sig refl refl refl (omega arith)
