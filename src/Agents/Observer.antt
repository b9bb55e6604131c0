-- ===== src/Agents/Observer.antt =====
-- agents/src/observer.ts: the read zone. What a WebSocket does is the platform's; its constructor may
-- throw, and is a parameter. A handle (`ws`, `interval`) is kept as whether it is not null.
use Prim.Native.String.{◌++◌}
use risk_claw_sol.Prelude.{
  ℕ, suc, ◌+◌, ◌*◌, ◌/◌, ◌%◌, Bool, true, false, not, List, [], ◌∷◌, Option, none, some, String,
  ◌is◌, if◌then◌else◌, leb,
}
use risk_claw_sol.Types.{PositionMetrics}
use risk_claw_sol.Errors.{Outcome, ok, throws, error}

pub record ObserverOpts : Type 0 where
  pub helius_api_key : String
  pub position_ids : List String
  pub ws_endpoint : Option String
  pub tick_ms : Option ℕ

-- The variables that `createObserver` closes over.
pub record Observer : Type 0 where
  pub handler : Bool
  pub ws : Bool
  pub interval : Bool
  pub started : Bool
  pub tick : ℕ

unfoldable pub create_observer : Observer
create_observer = record {
  handler = false;
  ws = false;
  interval = false;
  started = false;
  tick = 0;
}

abbrev or_else : {A : Type 0} → Option A → A → A
or_else none d = d
or_else (some a) _ = a

unfoldable pub ws_url : ObserverOpts → String
ws_url opts =
    or_else opts.ws_endpoint "wss://devnet.helius-rpc.com" ++ "/?api-key=" ++ opts.helius_api_key

unfoldable pub interval_ms : ObserverOpts → ℕ
interval_ms opts = or_else opts.tick_ms 5000

abbrev pub is_empty : {A : Type 0} → List A → Bool
is_empty [] = true
is_empty (_ ∷ _) = false

-- `Math.min(4_000, Math.floor((phase / 60) * 4_000))`. For each of the 60 phases the rounded product
-- of the source has the same whole part as the exact one.
unfoldable pub drift_curve : ℕ → ℕ
drift_curve t = let bps : ℕ = t % 60 * 4000 / 60 in if leb 4000 bps then 4000 else bps

-- One subscription message for each position, numbered from 1.
pub record Subscription : Type 0 where
  pub id : ℕ
  pub account : String

subscriptions_from : ℕ → List String → List Subscription
subscriptions_from i [] = []
subscriptions_from i (account ∷ rest) =
    record { id = i + 1; account = account } ∷ subscriptions_from (i + 1) rest

-- The listener of the socket's `open` event.
unfoldable pub on_open : ObserverOpts → List Subscription
unfolding subscriptions_from
on_open opts = subscriptions_from 0 opts.position_ids

-- What a tick emits: nothing without a first position.
abbrev emit : List String → ℕ → Observer → Option PositionMetrics × Observer
emit [] now o = (none, o)
emit (position_id ∷ rest) now o = if position_id is "" then (none, o) else (
  some (record {
    position_id = position_id;
    notional_usd = 2000000;
    drawdown_bps = drift_curve o.tick;
    liquidity_share_bps = 100;
    observed_at_unix_ms = now;
  }),
  o,
)

-- The callback of `setInterval`, at a time of the clock.
unfoldable pub on_interval : ObserverOpts → ℕ → Observer → Option PositionMetrics × Observer
on_interval opts now o =
    if not o.handler then (none, o) else emit opts.position_ids now (record o { tick = suc o.tick })

unfoldable pub stop : Observer → Observer
stop o = record o { ws = false; interval = false; started = false }

unfoldable pub on_metrics : Observer → Observer
on_metrics o = record o { handler = true }

module _ (new_web_socket : String → Outcome (Unit {0})) where
  abbrev after_socket : Outcome (Unit {0}) → Observer → Outcome (Unit {0}) × Observer
  after_socket (ok _) o = (ok tt, record o { ws = true; interval = true })
  after_socket (throws t) o = (throws t, o)

  unfoldable pub start : ObserverOpts → Observer → Outcome (Unit {0}) × Observer
  unfolding ws_url
  start opts o =
      if o.started
      then (ok tt, o)
      else if opts.helius_api_key is ""
      then (throws (error "HELIUS_API_KEY required for Observer"), o)
      else if is_empty opts.position_ids
      then (throws (error "POSITION_IDS empty — pass at least one Solana account"), o)
      else after_socket (new_web_socket (ws_url opts)) (record o { started = true })
