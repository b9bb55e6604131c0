-- ===== src/App/Trail.antt =====
-- app/app/audit/page.tsx: the audit page. Its effect subscribes to the program's events while a wallet
-- is connected; `registered` are the listeners that the program's connection calls. The text of a key
-- is web3.js's `toBase58`, a parameter; a row keeps its time as a number.
pub mod Subscription
pub mod Heard
pub mod Spacing
pub mod Cards
use risk_claw_sol.Prelude.{
  ℕ, suc, ◌*◌, Bool, true, false, not, ◌&&◌, List, [], ◌∷◌, Option, none, some, String, codes, ◌==◌,
  if◌then◌else◌,
}
use risk_claw_sol.Types.{PublicKey}
use risk_claw_sol.Programs.SwigDelegation.{RebalanceExecutedEvent}
use risk_claw_sol.Audit.{AuditEvent, rebalance_executed, sort_events, shorten_sig}
use risk_claw_sol.App.Binding.{same_wallet}

pub record AuditPage : Type 0 where
  -- the dependencies of the effect that ran last, none before the page is mounted
  pub effect : Option (Option PublicKey × ℕ)
  -- the id that the effect's cleanup removes
  pub listener : Option ℕ
  pub listening : Bool
  -- the state `events`
  pub events : List AuditEvent
  pub registered : List ℕ
  pub next_id : ℕ

abbrev pub initial : AuditPage
initial = record {
  effect = none;
  listener = none;
  listening = false;
  events = [];
  registered = [];
  next_id = 0;
}

abbrev pub removed : ℕ → List ℕ → List ℕ
removed id [] = []
removed id (j ∷ ids) = if j == id then removed id ids else j ∷ removed id ids

-- The cleanup of the effect, where it returned one.
abbrev pub cleanup : Option ℕ → AuditPage → AuditPage
cleanup none page = page
cleanup (some id) page = record page {
  listener = none;
  listening = false;
  registered = removed id page.registered;
}

-- The body of the effect.
abbrev pub subscribe : Option PublicKey → AuditPage → AuditPage
subscribe none page = record page { listening = false }
subscribe (some wallet) page = record page {
  listener = some page.next_id;
  listening = true;
  registered = page.next_id ∷ page.registered;
  next_id = suc page.next_id;
}

abbrev pub same_effect : Option (Option PublicKey × ℕ) → Option PublicKey → ℕ → Bool
same_effect none wallet connection = false
same_effect (some (w, c)) wallet connection = same_wallet w wallet && (c == connection)

-- A render: the effect runs again where its dependencies have changed.
unfoldable pub use_effect : Option PublicKey → ℕ → AuditPage → AuditPage
use_effect wallet connection page =
    if same_effect page.effect wallet connection
    then page
    else subscribe wallet
        (cleanup page.listener (record page { effect = some (wallet, connection) }))

unfoldable pub unmount : AuditPage → AuditPage
unmount page = cleanup page.listener (record page { effect = none })

module _ (to_base58 : PublicKey → String) where
  -- The row that the listener makes of an event.
  abbrev pub row_of : RebalanceExecutedEvent → AuditEvent
  row_of e =
      rebalance_executed (e.ts * 1000) (to_base58 e.policy) e.size_bps 0
        (to_base58 e.guardian_authority) (codes "(see explorer — RebalanceExecutedEvent)")

  -- Every listener that is registered puts a row in front.
  unfoldable pub deliver : List ℕ → RebalanceExecutedEvent → AuditPage → AuditPage
  deliver [] e page = page
  deliver (id ∷ ids) e page = deliver ids e (record page { events = row_of e ∷ page.events })

-- `sorted`
unfoldable pub displayed : AuditPage → List AuditEvent
displayed page = sort_events page.events

-- A row of the table, for the one kind of event that it shows.
pub record EventRow : Type 0 where
  pub ts : ℕ
  pub detail : ℕ
  pub guardian : List ℕ
  pub policy : List ℕ

unfoldable pub event_row : AuditEvent → Option EventRow
event_row (AuditEvent.rebalance_executed ts policy_hash size_bps slippage_bps guardian tx_sig) =
    some (record {
      ts = ts;
      detail = size_bps;
      guardian = shorten_sig (codes guardian) 6 6;
      policy = shorten_sig (codes policy_hash) 6 6;
    })
event_row (AuditEvent.agent_registered ts agent) = none
event_row (AuditEvent.policy_set ts policy_hash multisig signed_by tx_sig) = none
event_row (AuditEvent.threshold_check ts policy_hash breached score analyst tx_sig) = none

-- The chip above the table.
unfoldable pub subscription_text : Option PublicKey → Bool → String
subscription_text none listening = "connect a wallet to subscribe"
subscription_text (some wallet) listening =
    if listening then "listening — swig_delegation::RebalanceExecutedEvent" else "subscribing…"
