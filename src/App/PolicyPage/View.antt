-- ===== src/App/PolicyPage/View.antt =====
-- app/app/policy/page.tsx: what a render of the policy editor shows of its state, and that its button
-- agrees with its handler. The base-58 text of a key is web3.js's, and a parameter.
use Prim.Native.String.{◌++◌ as joined}
use risk_claw_sol.Prelude.{
  ℕ, ◌-◌, eq_iff, ◌≡◌, refl, ◌↔◌, Bool, true, false, not, ◌&&◌, List, [], ◌∷◌, ◌++◌, Option, none,
  some, String, codes, take, drop, length, if◌then◌else◌, arith, inl, inr, Option-cases,
}
use risk_claw_sol.Types.{PublicKey}
use risk_claw_sol.Client.{is_some}
use risk_claw_sol.App.PolicyPage.Stored.{submission, captured_ready}
use risk_claw_sol.App.PolicyPage.{
  ProposalState, idle, proposing, proposed, error, Page, Submission, is_proposing, multisig_ready,
  can_submit, captured,
}

pub data Status : Type 0 where
  success : (href : String) (text : List ℕ) → Status
  failure : (message : String) → Status

pub record View : Type 0 where
  pub operator_chip : List ℕ
  pub multisig_chip : List ℕ
  pub disabled : Bool
  pub label : String
  pub asks_for_wallet : Bool
  pub asks_for_multisig : Bool
  pub status : Option Status

-- `${t.slice(0, 6)}…${t.slice(-4)}`
abbrev pub chip_text : List ℕ → List ℕ
chip_text t = take 6 t ++ (8230 ∷ drop (length t - 4) t)

abbrev pub button_label : Bool → String
button_label busy = if busy then "Proposing…" else "Propose policy update →"

abbrev pub status_of : ProposalState → Option Status
status_of idle = none
status_of proposing = none
status_of (proposed tx_sig) = some (
    success (joined (joined "https://explorer.solana.com/tx/" tx_sig) "?cluster=devnet")
      (take 16 (codes tx_sig) ++ (8230 ∷ [])))
status_of (error message) = some (failure message)

abbrev key_chip : (PublicKey → List ℕ) → Bool → Option PublicKey → String → List ℕ
key_chip to_base58 shown none missing = codes missing
key_chip to_base58 shown (some key) missing =
    if shown then chip_text (to_base58 key) else codes missing

not-false : (b : Bool) → not b ≡ false → b ≡ true
not-false true h = refl
not-false false h = cc

labels_differ : ¬ (button_label false ≡ button_label true)
labels_differ same = false_ne_true ((eq_iff (button_label false) (button_label true)).1 same)
  where
    false_ne_true : ¬ (◌≡◌ {A = Bool} false true)
    false_ne_true h = cc

label-proposing :
    (s : ProposalState) → (button_label (is_proposing s) ≡ "Proposing…") ↔ (s ≡ proposing)
label-proposing idle = (λ h. absurd (labels_differ h), λ h. cc)
label-proposing proposing = (λ h. refl, λ h. refl)
label-proposing (proposed tx_sig) = (λ h. absurd (labels_differ h), λ h. cc)
label-proposing (error message) = (λ h. absurd (labels_differ h), λ h. cc)

module _ (multisig : Option PublicKey) (is_configured : Bool) where
  unfoldable pub view : (PublicKey → List ℕ) → Page → View
  unfolding can_submit
  view to_base58 page = record {
    operator_chip = key_chip to_base58 page.connected page.public_key "not connected";
    multisig_chip =
        key_chip to_base58 (multisig_ready multisig is_configured) multisig "not configured";
    disabled = not (can_submit multisig is_configured page);
    label = button_label (is_proposing page.state);
    asks_for_wallet = not page.connected;
    asks_for_multisig = page.connected && not (multisig_ready multisig is_configured);
    status = status_of page.state;
  }

  enabled-parts :
      (page : Page)
      → can_submit multisig is_configured page ≡ true
      → (is_configured ≡ true) × (is_proposing page.state ≡ false) × (is_some page.client ≡ true)
  unfolding can_submit
  enabled-parts page enabled = ground arith

  captured-enabled :
      (page : Page) (call : Submission)
      → captured multisig is_configured page ≡ some call
      → is_configured ≡ true
      → is_proposing page.state ≡ false
      → can_submit multisig is_configured page ≡ true
  unfolding can_submit captured
  captured-enabled page call go configured quiet = ground arith

  captures :
      (page : Page)
      → can_submit multisig is_configured page ≡ true
      → is_some page.client ≡ true
      → is_some page.public_key ≡ true
      → (call : Submission) × (captured multisig is_configured page ≡ some call)
  captures page enabled client_there key_there = elim (Option-cases page.client) [
    | inl no_client ↦ cc (client_there, no_client)
    | inr (bound, has_client) ↦ elim (Option-cases page.public_key) [
      | inl no_key ↦ cc (key_there, no_key)
      | inr (key, has_key) ↦ (
        submission bound key page,
        captured_ready multisig is_configured page bound key enabled has_key has_client,
      )
    ]
  ]

  -- As the wallet adapter has a key whenever it has a wallet, the button is enabled exactly when the
  -- configuration names a multisig, no call is under way and the handler passes its guard and starts
  -- a call; its label tells whether one is under way.
  pub view_agrees :
      (to_base58 : PublicKey → List ℕ) (page : Page)
      → (is_some page.client ≡ true → is_some page.public_key ≡ true)
      → (((view to_base58 page).disabled ≡ false) ↔ (
          (is_configured ≡ true)
          × (is_proposing page.state ≡ false)
          × ((call : Submission) × (captured multisig is_configured page ≡ some call))))
        × (((view to_base58 page).label ≡ "Proposing…") ↔ (page.state ≡ proposing))
  unfolding view
  view_agrees to_base58 page has_key = (
    (
      λ h.
          let enabled = not-false (can_submit multisig is_configured page) h in
          let (configured, quiet, there) = enabled-parts page enabled in
          (configured, quiet, captures page enabled there (has_key there)),
      λ (configured, quiet, (call, go)). rw (captured-enabled page call go configured quiet) refl,
    ),
    label-proposing page.state,
  )
