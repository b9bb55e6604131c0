-- ===== src/Tests/Zones.antt =====
-- The agents' loop and the Observer.
use risk_claw_sol.Prelude.{◌≡◌, refl, List, [], ◌∷◌, none, false}
use risk_claw_sol.Errors.{ok, throws, error}
use risk_claw_sol.Agents.Loop.{real_client, handle_metrics}
use risk_claw_sol.Agents.Guard.{handle_metrics-Guarded, Guarded, checked}
use risk_claw_sol.Agents.Observer.{ObserverOpts, create_observer, start}
use risk_claw_sol.Agents.Lifecycle.{
  Event, start_called, stop_called, on_metrics_called, timer, IsConsistent, run_events,
  observer-IsConsistent, start_failed_sticks,
}
use risk_claw_sol.Session.{session_host}
use risk_claw_sol.Tests.Fixture.{deployment, ids, wallet, world, metrics}

handle_metrics-Guarded_example :
    Guarded
      (session_host deployment wallet)
      deployment.web3
      ids
      (metrics 3000)
      world.env
      (checked (session_host deployment wallet) deployment.web3 ids (metrics 3000) world)
      (handle_metrics
        (real_client (session_host deployment wallet) deployment.web3 ids)
        (metrics 3000)
        world).1.env
handle_metrics-Guarded_example =
    handle_metrics-Guarded (session_host deployment wallet) deployment.web3 ids (metrics 3000) world

abbrev opts : ObserverOpts
opts = record {
  helius_api_key = "key";
  position_ids = "pos" ∷ [];
  ws_endpoint = none;
  tick_ms = none;
}

-- A life with a restart, and a tick that has no handler yet.
abbrev life : List Event
life =
    start_called
    ∷ timer 5
    ∷ on_metrics_called
    ∷ timer 10
    ∷ stop_called
    ∷ timer 15
    ∷ start_called
    ∷ timer 20
    ∷ []

observer-IsConsistent_example : IsConsistent (run_events (λ url. ok tt) opts life create_observer).1
observer-IsConsistent_example = observer-IsConsistent (λ url. ok tt) opts life

start_failed_sticks_example :
    let o' = (start (λ url. throws (error "bad url")) opts create_observer).1 in
    ((start (λ url. throws (error "bad url")) opts create_observer).0 ≡ throws (error "bad url"))
    × (start (λ url. throws (error "bad url")) opts o' ≡ (ok tt, o'))
    × (o'.interval ≡ false)
unfolding create_observer
start_failed_sticks_example =
    start_failed_sticks (λ url. throws (error "bad url")) opts create_observer (error "bad url")
      (record { together = refl; live_started = λ h. cc }) refl (λ h. cc) (λ h. cc) refl
