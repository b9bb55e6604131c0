-- ===== src/App/PolicyPage/Stored.antt =====
-- A proposal from the button to the cluster: what was typed when the form was submitted is stored.
use risk_claw_sol.Prelude.{
  ℕ, ◌≤◌, ◌≡◌, refl, Bool, true, false, List, [], ◌∷◌, All, Option, none, some, arith, ap, subst,
  ◌∙◌,
}
use risk_claw_sol.Prelude.Int.{pos}
use risk_claw_sol.Types.{PublicKey, TxSig}
use risk_claw_sol.Errors.{Outcome, ok}
use risk_claw_sol.Encrypt.{encrypt_threshold, test_decrypt_placeholder}
use risk_claw_sol.Ids.{Web3, Ids}
use risk_claw_sol.Programs.RiskPolicy.{RiskPolicy}
use risk_claw_sol.Client.{Host, World}
use risk_claw_sol.Devnet.{Deployment, landed, policy_address}
use risk_claw_sol.Session.{Session, session_host}
use risk_claw_sol.Session.Policy.{IsSetUp, threshold_stored}
use risk_claw_sol.App.Binding.{BoundClient}
use risk_claw_sol.App.PolicyPage.{
  proposing, proposed, Page, Submission, App, Event, edits, wallet_changes, submits, settles,
  moves_on, can_submit, captured, on_submit, call_client, settle, settled, step, run,
}

-- Anything but the return of a call.
abbrev pub IsWaiting : {E : Type 0} → Event E → Type 0
IsWaiting settles = ⊥
IsWaiting (edits field n) = Unit
IsWaiting (wallet_changes connected key client) = Unit
IsWaiting submits = Unit
IsWaiting (moves_on change) = Unit

-- What a submission of the page captures.
abbrev pub submission : BoundClient → PublicKey → Page → Submission
submission bound key page = record {
  bound = bound;
  vault = key;
  ciphertext = encrypt_threshold (pos (page.form).drawdown_bps) none;
}

abbrev pub InFlight : {E : Type 0} → Submission → App E → Type 0
InFlight call a = (a.page.state ≡ proposing) × (a.pending ≡ call ∷ [])

module _ (multisig : Option PublicKey) (is_configured : Bool) where
  pub captured_ready :
      (page : Page) (bound : BoundClient) (key : PublicKey)
      → can_submit multisig is_configured page ≡ true
      → page.public_key ≡ some key
      → page.client ≡ some bound
      → captured multisig is_configured page ≡ some (submission bound key page)
  unfolding can_submit captured
  captured_ready page bound key enabled has_key has_client = ground (arith, has_key, has_client)

  proposing_disabled :
      (page : Page) → page.state ≡ proposing → can_submit multisig is_configured page ≡ false
  unfolding can_submit
  proposing_disabled page busy = ground (arith, busy)

  module _ {E : Type 0} (host : PublicKey → Host E) (web3 : Web3) (ids : Ids) where
    waiting_step :
        (event : Event E) (call : Submission) (a : App E)
        → IsWaiting event
        → InFlight call a
        → InFlight call (step multisig is_configured host web3 ids event a)
    unfolding step
    waiting_step (edits field n) call a waiting f = f
    waiting_step (wallet_changes connected key client) call a waiting f = f
    waiting_step submits call a waiting f = rw (proposing_disabled a.page f.0) f
    waiting_step settles call a waiting f = absurd waiting
    waiting_step (moves_on change) call a waiting f = f

    waiting_run :
        (events : List (Event E)) (call : Submission) (a : App E)
        → All IsWaiting events
        → InFlight call a
        → InFlight call (run multisig is_configured host web3 ids events a)
    unfolding run
    waiting_run [] call a waiting f = f
    waiting_run (event ∷ rest) call a waiting f =
        waiting_run rest call (step multisig is_configured host web3 ids event a) waiting.1
          (waiting_step event call a waiting.0 f)

    -- The page while the call is under way.
    pub submit-InFlight :
        (events : List (Event E)) (bound : BoundClient) (key : PublicKey) (a : App E)
        → can_submit multisig is_configured a.page ≡ true
        → a.page.public_key ≡ some key
        → a.page.client ≡ some bound
        → a.pending ≡ []
        → All IsWaiting events
        → InFlight
            (submission bound key a.page)
            (run multisig is_configured host web3 ids (submits ∷ events) a)
    unfolding run step
    submit-InFlight events bound key a enabled has_key has_client none_pending waiting =
        waiting_run events (submission bound key a.page)
          (step multisig is_configured host web3 ids submits a) waiting
          (rw
            (
              enabled,
              on_submit,
              captured_ready a.page bound key enabled has_key has_client,
              none_pending,
            )
            (refl, refl))

    settled_step :
        (call : Submission) (a : App E) (o : Outcome TxSig) (env : E)
        → a.pending ≡ call ∷ []
        → call_client multisig is_configured host web3 ids call a.env ≡ (o, env)
        → step multisig is_configured host web3 ids settles a
          ≡ record a { page = record (a.page) { state = settled o }; pending = []; env = env }
    unfolding step settle
    settled_step call a o env waits answer = rw (waits, answer) refl

-- A page that can be submitted, with the client of the connected wallet and no call under way, is
-- submitted; then the operator goes on editing and clicking, wallets come and go, and the cluster
-- moves on to a state that is set up for the captured wallet. When the call comes back the page shows
-- its signature, and the account of that wallet holds a text that reads back as the drawdown limit of
-- the form at the time of the click, which the slider keeps below 10000.
pub proposal_stored :
    (deployment : Deployment) (ids : Ids) (multisig : Option PublicKey) (is_configured : Bool)
    (between : List (Event Session)) (bound : BoundClient) (a : App Session)
    → can_submit multisig is_configured a.page ≡ true
    → a.page.public_key ≡ some bound.signer
    → a.page.client ≡ some bound
    → a.pending ≡ []
    → (a.page.form).drawdown_bps ≤ 10000
    → All IsWaiting between
    → (b : App Session)
    → run multisig is_configured (session_host deployment) deployment.web3 ids (submits ∷ between) a
      ≡ b
    → IsSetUp deployment ids bound.signer (record { client = bound.client; env = b.env })
    → (c : App Session) × (p : RiskPolicy) × (found : PublicKey × ℕ) × (step multisig is_configured
          (session_host deployment)
          deployment.web3
          ids
          settles
          b
        ≡ c)
      × (c.page ≡ record (b.page) { state = proposed (deployment.signature b.env.chain.count) })
      × (c.pending ≡ [])
      × (policy_address deployment bound.signer ≡ landed found)
      × (c.env.chain.policies found.0 ≡ some p)
      × (p.owning_multisig_vault ≡ bound.signer)
      × (test_decrypt_placeholder p.ciphertext_ref ≡ ok (a.page.form).drawdown_bps)
unfolding call_client
proposal_stored deployment ids multisig is_configured between bound a enabled has_key has_client
      none_pending limited waiting b moved set_up =
    let host = session_host deployment in
    let key : PublicKey = bound.signer in
    let call : Submission = submission bound key a.page in
    let (busy, waits) = subst (InFlight call) moved (
      submit-InFlight multisig is_configured host deployment.web3 ids between bound key a enabled
        has_key has_client none_pending waiting) in
    let (w', p, found, sent, located, stored, owned, reads) =
      threshold_stored deployment ids key (pos (a.page.form).drawdown_bps) none
        (record { client = bound.client; env = b.env }) set_up in
    (
      record b {
        page = record (b.page) { state = proposed (deployment.signature b.env.chain.count) };
        pending = [];
        env = w'.env;
      },
      p,
      found,
      settled_step multisig is_configured host deployment.web3 ids call b
          (ok (deployment.signature b.env.chain.count)) w'.env waits
          (ap (λ r. (r.0, World.env r.1)) sent),
      refl,
      refl,
      located,
      stored,
      owned,
      reads ∙ ap ok (omega arith),
    )
