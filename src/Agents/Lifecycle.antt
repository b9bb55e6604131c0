-- ===== src/Agents/Lifecycle.antt =====
-- The life of an Observer: what `start`, `stop`, `onMetrics` and the timer make of its variables.
use risk_claw_sol.Prelude.{
  ℕ, suc, ◌≡◌, ◌≢◌, refl, true, false, List, [], ◌∷◌, Option, none, some, String, ◌is◌, arith,
  eq_iff, subst,
}
use risk_claw_sol.Types.{PositionMetrics}
use risk_claw_sol.Errors.{Outcome, ok, throws, Thrown}
use risk_claw_sol.Agents.Observer.{
  Observer, ObserverOpts, create_observer, start, stop, on_metrics, on_interval, drift_curve,
  ws_url,
}

pub data Event : Type 0 where
  start_called stop_called on_metrics_called : Event
  -- the timer, at a time; it fires only while it is set
  timer : ℕ → Event

-- Socket and timer are held together, and only by an observer that has started.
pub record IsConsistent (o : Observer) : Type 0 where
  pub together : o.ws ≡ o.interval
  pub live_started : o.interval ≡ true → o.started ≡ true

module _ (new_web_socket : String → Outcome (Unit {0})) (opts : ObserverOpts) where
  unfoldable pub step : Event → Observer → Option PositionMetrics × Observer
  step start_called o = (none, (start new_web_socket opts o).1)
  step stop_called o = (none, stop o)
  step on_metrics_called o = (none, on_metrics o)
  step (timer now) o = elim o.interval [ true ↦ on_interval opts now o | false ↦ (none, o) ]

  -- The metrics that a life emits, in order.
  unfoldable pub run_events : List Event → Observer → List PositionMetrics × Observer
  run_events [] o = ([], o)
  run_events (e ∷ es) o =
      let (m, o') = step e o in
      let (ms, o'') = run_events es o' in (elim m [ none ↦ ms | some x ↦ x ∷ ms ], o'')

  step-IsConsistent : (e : Event) (o : Observer) → IsConsistent o → IsConsistent (step e o).1
  unfolding step start stop on_metrics on_interval
  step-IsConsistent start_called o h = ground arith
  step-IsConsistent stop_called o h = ground arith
  step-IsConsistent on_metrics_called o h = ground arith
  step-IsConsistent (timer now) o h = ground arith

  run_events-IsConsistent :
      (es : List Event) (o : Observer) → IsConsistent o → IsConsistent (run_events es o).1
  unfolding run_events
  run_events-IsConsistent [] o h = h
  run_events-IsConsistent (e ∷ es) o h =
      run_events-IsConsistent es (step e o).1 (step-IsConsistent e o h)

  -- In every life of a new observer, the socket and the timer are held together, and only while it
  -- has started.
  pub observer-IsConsistent : (es : List Event) → IsConsistent (run_events es create_observer).1
  unfolding create_observer
  observer-IsConsistent es =
      run_events-IsConsistent es create_observer
        (record { together = refl; live_started = λ h. cc })

  -- The drawdowns of `n` ticks in a row.
  abbrev pub Drifts : ℕ → List PositionMetrics → Type 0
  Drifts t [] = Unit
  Drifts t (m ∷ ms) = (m.drawdown_bps ≡ drift_curve (suc t)) × Drifts (suc t) ms

  -- A step that emits has moved the tick by one; a step that does not has left it.
  abbrev Ticks : Observer → Option PositionMetrics × Observer → Type 0
  Ticks o (none, o') = o'.tick ≡ o.tick
  Ticks o (some m, o') = (m.drawdown_bps ≡ drift_curve (suc o.tick)) × (o'.tick ≡ suc o.tick)

  step-Ticks :
      (first : String) (rest : List String) (e : Event) (o : Observer)
      → opts.position_ids ≡ first ∷ rest
      → (first is "") ≡ false
      → Ticks o (step e o)
  unfolding step start stop on_metrics on_interval
  step-Ticks first rest start_called o p q = ground arith
  step-Ticks first rest stop_called o p q = ground arith
  step-Ticks first rest on_metrics_called o p q = ground arith
  step-Ticks first rest (timer now) o p q = ground arith

  run_events-Drifts :
      (first : String) (rest : List String) (es : List Event) (o : Observer)
      → opts.position_ids ≡ first ∷ rest
      → (first is "") ≡ false
      → Drifts o.tick (run_events es o).0
  unfolding run_events
  run_events-Drifts first rest [] o p q = tt
  run_events-Drifts first rest (e ∷ es) o p q =
      drifts_after e (step e o) refl (step-Ticks first rest e o p q)
        (run_events-Drifts first rest es (step e o).1 p q)
    where
      drifts_after :
          (e : Event) (r : Option PositionMetrics × Observer)
          → r ≡ step e o
          → Ticks o r
          → Drifts (r.1).tick (run_events es r.1).0
          → Drifts o.tick
              (elim r.0 [ none ↦ (run_events es r.1).0 | some x ↦ x ∷ (run_events es r.1).0 ])
      drifts_after e (none, o') s t d = subst (λ n. Drifts n (run_events es o').0) t d
      drifts_after e (some m, o') s t d = (t.0, subst (λ n. Drifts n (run_events es o').0) t.1 d)

  -- Whatever stops and restarts come in between, the metrics that an observer with a first position
  -- emits follow the drift curve tick by tick, with none left out.
  pub emitted-Drifts :
      (first : String) (rest : List String) (es : List Event)
      → opts.position_ids ≡ first ∷ rest
      → first ≢ ""
      → Drifts 0 (run_events es create_observer).0
  unfolding create_observer
  emitted-Drifts first rest es p q =
      run_events-Drifts first rest es create_observer p (ground (arith, eq_iff first ""))

  -- If a consistent observer that has not started, with a key and a position, is started and the
  -- socket's constructor throws, then `start` throws the same and leaves the observer marked as
  -- started: a second `start` returns at once, changes nothing, and no timer is set.
  pub start_failed_sticks :
      (o : Observer) (t : Thrown)
      → IsConsistent o
      → o.started ≡ false
      → opts.helius_api_key ≢ ""
      → opts.position_ids ≢ []
      → new_web_socket (ws_url opts) ≡ throws t
      → let o' = (start new_web_socket opts o).1 in
        ((start new_web_socket opts o).0 ≡ throws t)
        × (start new_web_socket opts o' ≡ (ok tt, o'))
        × (o'.interval ≡ false)
  unfolding start
  start_failed_sticks o t c idle has_key has_position broken =
      ground (arith, eq_iff opts.helius_api_key "")
