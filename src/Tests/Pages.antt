-- ===== src/Tests/Pages.antt =====
-- The pages of the app at work.
use mathlib.Core.List.{Permᴰ}
use risk_claw_sol.Prelude.{
  ℕ, zero, suc, ◌≡◌, refl, ap, ◌↔◌, arith, Bool, true, false, List, [], ◌∷◌, none, some, String,
}
use risk_claw_sol.Types.{PublicKey}
use risk_claw_sol.Errors.{ok}
use risk_claw_sol.Encrypt.{test_decrypt_placeholder}
use risk_claw_sol.Programs.RiskPolicy.{RiskPolicy}
use risk_claw_sol.Programs.SwigDelegation.{RebalanceAction, RebalanceExecutedEvent, handle}
use risk_claw_sol.Devnet.{landed, policy_address, process, run as run_chain}
use risk_claw_sol.Session.{Session, session_host}
use risk_claw_sol.App.Binding.{BoundClient, use_onchain_client}
use risk_claw_sol.App.Binding.Renders
use risk_claw_sol.App.Binding.Renders.{Serves, use_onchain_client-Serves}
use risk_claw_sol.App.PolicyPage.{
  Page, App, Event, Submission, Field, idle, proposing, proposed, is_proposing, edits,
  wallet_changes, submits, settles, moves_on, initial_form, captured, can_submit, on_submit, step,
  run,
}
use risk_claw_sol.App.PolicyPage.InFlight.{IsMatched, run-IsMatched}
use risk_claw_sol.App.PolicyPage.Stored.{submission, proposal_stored}
use risk_claw_sol.App.PolicyPage.OtherFields.{without_others, other_fields_ignored}
use risk_claw_sol.App.PolicyPage.View.{view, view_agrees}
use risk_claw_sol.App.Trail.{row_of, displayed}
use risk_claw_sol.App.Trail.Subscription.{IsSubscribed}
use risk_claw_sol.App.Trail.Heard
use risk_claw_sol.App.Trail.Heard.{Life, renders, emits, unmounts, displayed-heard}
use risk_claw_sol.App.Trail.Spacing
use risk_claw_sol.App.Trail.Spacing.{IsApart, displayed-IsApart}
use risk_claw_sol.Audit.Order.{IsLatestFirst}
use risk_claw_sol.Tests.Fixture.{deployment, ids, wallet, client, world, chain}
use risk_claw_sol.Tests.Sessions.{set_up}
use risk_claw_sol.Tests.Chain.{history}

abbrev pub bound : BoundClient
bound = record { signer = wallet; client = client }

abbrev pub page : Page
page = record {
  connected = true;
  public_key = some wallet;
  client = some bound;
  form = initial_form 1000000;
  state = idle;
}

abbrev pub app : App Session
app = record { page = page; pending = []; env = world.env }

-- The operator moves the slider, clicks again and disconnects, while the cluster's clock moves on.
abbrev between : List (Event Session)
between =
    edits Field.drawdown_limit 500
    ∷ submits
    ∷ moves_on (λ s. record s { date_ms = 1000400 })
    ∷ wallet_changes false none none
    ∷ []

abbrev waiting : App Session
waiting = record {
  page = record {
    connected = false;
    public_key = none;
    client = none;
    form = record (page.form) { drawdown_bps = 500 };
    state = proposing;
  };
  pending = submission bound wallet page ∷ [];
  env = record (world.env) { date_ms = 1000400 };
}

submitted :
    run (some 7) true (session_host deployment) deployment.web3 ids (submits ∷ between) app
    ≡ waiting
unfolding run step can_submit on_submit captured
submitted = refl

proposal_stored_example :
    (c : App Session) × (p : RiskPolicy) × (found : PublicKey × ℕ) × (step
        (some 7)
        true
        (session_host deployment)
        deployment.web3
        ids
        settles
        waiting
      ≡ c)
    × (c.page ≡ record (waiting.page) { state = proposed "5first" })
    × (c.pending ≡ [])
    × (policy_address deployment wallet ≡ landed found)
    × (c.env.chain.policies found.0 ≡ some p)
    × (p.owning_multisig_vault ≡ wallet)
    × (test_decrypt_placeholder p.ciphertext_ref ≡ ok 2000)
unfolding can_submit
proposal_stored_example =
    proposal_stored deployment ids (some 7) true between bound app refl refl refl refl (omega arith)
      (omega arith) waiting submitted
      (record {
        found = set_up.found;
        has_program = refl;
        same_program = refl;
        located = refl;
        connected = refl;
        no_other = refl;
        own_address = set_up.own_address;
      })

run-IsMatched_example :
    IsMatched
      (run (some 7) true (session_host deployment) deployment.web3 ids (submits ∷ between) app)
run-IsMatched_example =
    run-IsMatched (some 7) true (session_host deployment) deployment.web3 ids (submits ∷ between)
      app refl

other_fields_ignored_example :
    without_others (
      run
        (some 7)
        true
        (session_host deployment)
        deployment.web3
        ids
        (edits Field.max_slippage 5 ∷ submits ∷ settles ∷ [])
        app)
    ≡ without_others (
        run
          (some 7)
          true
          (session_host deployment)
          deployment.web3
          ids
          (submits ∷ settles ∷ [])
          app)
other_fields_ignored_example =
    other_fields_ignored (some 7) true (session_host deployment) deployment.web3 ids
      (edits Field.max_slippage 5 ∷ submits ∷ settles ∷ []) app

view_agrees_example :
    (((view (some 7) true (λ k. k ∷ []) page).disabled ≡ false) ↔ (
      (◌≡◌ {A = Bool} true true)
      × (is_proposing idle ≡ false)
      × ((call : Submission) × (captured (some 7) true page ≡ some call))))
    × (((view (some 7) true (λ k. k ∷ []) page).label ≡ "Proposing…") ↔ (idle ≡ proposing))
view_agrees_example = view_agrees (some 7) true (λ k. k ∷ []) page (λ there. refl)

abbrev life : List Renders.Life
life = Renders.renders none 0 ∷ Renders.renders (some wallet) 0 ∷ []

use_onchain_client-Serves_example :
    Serves (some 8) (use_onchain_client (some 8) 0 (Renders.after life)).value
    × (Renders.after
          (Renders.renders (some 8) 0 ∷ Renders.calls (λ c. c) ∷ Renders.renders (some 8) 0 ∷ life)
        ≡ Renders.after (Renders.calls (λ c. c) ∷ Renders.renders (some 8) 0 ∷ life))
use_onchain_client-Serves_example = use_onchain_client-Serves life (some 8) 0 (λ c. c)

-- A text for each key.
abbrev pub key_text : PublicKey → String
key_text zero = String.[]
key_text (suc n) = String.◌∷◌ "k" (key_text n)

abbrev event : ℕ → RebalanceExecutedEvent
event ts = record {
  policy = 40;
  guardian_authority = 7;
  action = RebalanceAction.exit;
  size_bps = 5000;
  ts = ts;
}

-- Both executions are heard of, the first by a page with a wallet.
abbrev heard_life : List Life
heard_life = emits (event 1035) ∷ renders none 0 ∷ emits (event 1000) ∷ renders (some wallet) 0 ∷ []

displayed-heard_example :
    IsSubscribed false (Heard.after key_text heard_life)
    × Permᴰ (displayed (Heard.after key_text heard_life)) (row_of key_text (event 1000) ∷ [])
    × IsLatestFirst (displayed (Heard.after key_text heard_life))
displayed-heard_example = displayed-heard key_text heard_life

key_text-injective : (a b : PublicKey) → key_text a ≡ key_text b → a ≡ b
key_text-injective zero zero same = refl
key_text-injective zero (suc b) same = absurd (cc)
key_text-injective (suc a) zero same = absurd (cc)
key_text-injective (suc a) (suc b) same = ap suc (key_text-injective a b (cc))

emitted_events : Spacing.emitted heard_life ≡ (run_chain deployment history chain).events
unfolding run_chain process handle
emitted_events = refl

displayed-IsApart_example : IsApart (displayed (Heard.after key_text heard_life))
displayed-IsApart_example =
    displayed-IsApart key_text key_text-injective deployment history chain heard_life (omega arith)
      refl emitted_events
