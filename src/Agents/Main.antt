-- ===== src/Agents/Main.antt =====
-- agents/src/run.ts, `main`: the zones are put together, the Observer is started, and from then on its
-- timer drives the handler. Ticks of one process, each in the environment of its time.
use risk_claw_sol.Prelude.{
  ℕ, suc, ◌≡◌, true, false, List, [], ◌∷◌, Option, none, some, String, ◌is◌, if◌then◌else◌, arith,
  Bool-cases, inl, inr,
}
use risk_claw_sol.Types.{PositionMetrics, TxSig}
use risk_claw_sol.Errors.{Outcome, ok, throws, error, Outcome-cases, Thrown}
use risk_claw_sol.Client.{Host, World}
use risk_claw_sol.Agents.Observer.{
  Observer, ObserverOpts, create_observer, start, on_metrics, on_interval, drift_curve, ws_url,
}
use risk_claw_sol.Agents.Loop.{
  OnchainClient, handle_metrics, position_ids, split_commas, filter_nonempty,
}
use risk_claw_sol.Agents.Lifecycle.{step, timer}
use risk_claw_sol.Agents.Turns.{Turn}

-- What run.ts gives to `createObserver`: the two variables of the environment, and defaults.
abbrev pub observer_opts : String → Option String → ObserverOpts
observer_opts key ids = record {
  helius_api_key = key;
  position_ids = position_ids ids;
  ws_endpoint = none;
  tick_ms = none;
}

-- The process: the variables of the Observer, the world of the client, and what ended it, if anything.
pub record Process (E : Type 0) : Type 0 where
  pub observer : Observer
  pub world : World E
  pub crashed : Option Thrown

-- The Observer does not await its handler, so a throw of it is an unhandled rejection: Node ends the
-- process.
abbrev pub after_handler : {E : Type 0} → Observer → Outcome (Option TxSig) × World E → Process E
after_handler o (ok sig, w) = record { observer = o; world = w; crashed = none }
after_handler o (throws t, w) = record { observer = o; world = w; crashed = some t }

module _ (new_web_socket : String → Outcome (Unit {0})) where
  -- `main`, up to its last `await`: the outcome, and the Observer that it leaves.
  unfoldable pub main : Option String → Option String → Outcome (Unit {0}) × Observer
  main none ids = (throws (error "HELIUS_API_KEY missing — see .env.example"), create_observer)
  main (some key) ids =
      if key is ""
      then (throws (error "HELIUS_API_KEY missing — see .env.example"), create_observer)
      else start new_web_socket (observer_opts key ids) (on_metrics create_observer)

  module _ (opts : ObserverOpts) {E : Type 0} (host : Host E)
      (onchain : OnchainClient (World E)) where
    abbrev pub handled : E → Option PositionMetrics × Observer → World E → Process E
    handled env (none, o) w = record {
      observer = o;
      world = record w { env = env };
      crashed = none;
    }
    handled env (some m, o) w = after_handler o (handle_metrics onchain m (record w { env = env }))

    -- The timer of the Observer fires in an environment.
    unfoldable pub on_tick : E → Process E → Process E
    unfolding step
    on_tick env p = elim p.crashed [
      | some t ↦ p
      | none ↦ handled env (step new_web_socket opts (timer (host.date_now env)) p.observer) p.world
    ]

    unfoldable pub run_ticks : List E → Process E → Process E
    unfolding on_tick
    run_ticks [] p = p
    run_ticks (env ∷ envs) p = run_ticks envs (on_tick env p)

-- The metric of a tick.
abbrev pub drifted : String → ℕ → ℕ → PositionMetrics
drifted position_id tick now = record {
  position_id = position_id;
  notional_usd = 2000000;
  drawdown_bps = drift_curve tick;
  liquidity_share_bps = 100;
  observed_at_unix_ms = now;
}

module _ {E : Type 0} (host : Host E) (p : String) where
  abbrev pub turn_of : ℕ → E → Turn E
  turn_of tick env = record { metrics = drifted p tick (host.date_now env); env = env }

  -- The turns of the ticks that follow tick `t`.
  abbrev pub turns_of : ℕ → List E → List (Turn E)
  turns_of t [] = []
  turns_of t (env ∷ envs) = turn_of (suc t) env ∷ turns_of (suc t) envs

-- An Observer whose timer emits.
pub record IsLive (o : Observer) : Type 0 where
  pub has_handler : o.handler ≡ true
  pub has_timer : o.interval ≡ true

-- A position id that survives `.filter(Boolean)` is not empty.
filter_nonempty-first :
    (l : List String) (p : String) (rest : List String)
    → filter_nonempty l ≡ p ∷ rest
    → (p is "") ≡ false
unfolding filter_nonempty
filter_nonempty-first [] p rest h = cc
filter_nonempty-first (s ∷ l) p rest h = elim (Bool-cases (s is "")) [
  | inl empty ↦ filter_nonempty-first l p rest (rw empty at h)
  | inr other ↦ ground (arith, rw other at h, other)
]

pub position_ids-first :
    (ids : Option String) (p : String) (rest : List String)
    → position_ids ids ≡ p ∷ rest
    → (p is "") ≡ false
unfolding position_ids
position_ids-first none p rest h = cc
position_ids-first (some text) p rest h = filter_nonempty-first (split_commas text) p rest h

module _ (new_web_socket : String → Outcome (Unit {0})) where
  main-parts :
      (key : String) (ids : Option String) (o : Observer)
      → main new_web_socket (some key) ids ≡ (ok tt, o)
      → (o.handler ≡ true) × (o.interval ≡ true) × (o.tick ≡ 0)
  unfolding main start on_metrics create_observer
  main-parts key ids o h = elim (Bool-cases (key is "")) [
    | inl empty ↦ ground (arith, empty)
    | inr given ↦ elim (Outcome-cases (new_web_socket (ws_url (observer_opts key ids)))) [
      | inl (t, broken) ↦ ground (arith, given, broken)
      | inr (u, opened) ↦ ground (arith, given, opened)
    ]
  ]

  pub main-IsLive :
      (key : String) (ids : Option String) (o : Observer)
      → main new_web_socket (some key) ids ≡ (ok tt, o)
      → IsLive o × (o.tick ≡ 0)
  main-IsLive key ids o h =
      let (handler, interval, tick) = main-parts key ids o h in
      (record { has_handler = handler; has_timer = interval }, tick)

  module _ (opts : ObserverOpts) (p : String) (rest : List String) where
    pub tick-step :
        (now : ℕ) (o : Observer)
        → opts.position_ids ≡ p ∷ rest
        → (p is "") ≡ false
        → IsLive o
        → step new_web_socket opts (timer now) o
          ≡ (some (drifted p (suc o.tick) now), record o { tick = suc o.tick })
    unfolding step on_interval
    tick-step now o first named live = ground (arith, live.has_handler, live.has_timer)
