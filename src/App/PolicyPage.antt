-- ===== src/App/PolicyPage.antt =====
-- app/app/policy/page.tsx: the policy editor. The page's state is what its hooks hold; `pending` are
-- the calls of `onSubmit` that have not come back. A call reaches the cluster when it settles, with
-- what the handler captured when the form was submitted. Numbers of the form are naturals, and the
-- conversion of an input's text is the browser's.
pub mod InFlight
pub mod Stored
pub mod OtherFields
pub mod View
pub mod Inputs
pub mod Ranges
use risk_claw_sol.Prelude.{
  ℕ, Bool, true, false, not, ◌&&◌, List, [], ◌∷◌, ◌++◌, Option, none, some, String, take, drop,
  if◌then◌else◌, ◌+◌, ◌*◌, ◌/◌,
}
use risk_claw_sol.Prelude.Int.{pos}
use risk_claw_sol.Types.{PublicKey, TxSig}
use risk_claw_sol.Errors.{Outcome, ok, throws}
use risk_claw_sol.Encrypt.{Uint8Array, encrypt_threshold}
use risk_claw_sol.Ids.{Web3, Ids}
use risk_claw_sol.Client.{Host, World, is_some, set_encrypted_policy}
use risk_claw_sol.App.Binding.{BoundClient}

pub data ProposalState : Type 0 where
  idle proposing : ProposalState
  proposed : (tx_sig : TxSig) → ProposalState
  error : (message : String) → ProposalState

pub record Form : Type 0 where
  pub drawdown_bps : ℕ
  pub max_notional_usd : ℕ
  pub max_slippage_bps : ℕ
  pub expires_at_unix : ℕ

pub record Page : Type 0 where
  pub connected : Bool
  pub public_key : Option PublicKey
  pub client : Option BoundClient
  pub form : Form
  pub state : ProposalState

-- A call of `client.setEncryptedPolicy(publicKey, ciphertext)` under way.
pub record Submission : Type 0 where
  pub bound : BoundClient
  pub vault : PublicKey
  pub ciphertext : Uint8Array

pub record App (E : Type 0) : Type 0 where
  pub page : Page
  -- the oldest first
  pub pending : List Submission
  pub env : E

pub data Field : Type 0 where
  drawdown_limit max_notional max_slippage expires_at : Field

pub data Event (E : Type 0) : Type 0 where
  edits : Field → ℕ → Event E
  -- what `useWallet` and `useOnchainClient` return from now on
  wallet_changes : Bool → Option PublicKey → Option BoundClient → Event E
  submits : Event E
  -- the oldest call under way comes back
  settles : Event E
  -- the clock and the cluster move on
  moves_on : (E → E) → Event E

-- The initial state, at a time in milliseconds.
abbrev pub initial_form : ℕ → Form
initial_form date_ms = record {
  drawdown_bps = 2000;
  max_notional_usd = 2000000;
  max_slippage_bps = 50;
  expires_at_unix = date_ms / 1000 + 30 * 24 * 60 * 60;
}

abbrev pub is_proposing : ProposalState → Bool
is_proposing proposing = true
is_proposing idle = false
is_proposing (proposed _) = false
is_proposing (error _) = false

abbrev pub edited : Field → ℕ → Form → Form
edited drawdown_limit n form = record form { drawdown_bps = n }
edited max_notional n form = record form { max_notional_usd = n }
edited max_slippage n form = record form { max_slippage_bps = n }
edited expires_at n form = record form { expires_at_unix = n }

-- The end of the `try` of `onSubmit`.
abbrev pub settled : Outcome TxSig → ProposalState
settled (ok sig) = proposed sig
settled (throws thrown) = error thrown.message

abbrev pub started : {E : Type 0} → Option Submission → App E → App E
started none a = a
started (some call) a = record a {
  page = record (a.page) { state = proposing };
  pending = a.pending ++ (call ∷ []);
}

-- What `getDevMultisig` and `isMultisigConfigured` return, for every render.
module _ (multisig : Option PublicKey) (is_configured : Bool) where
  abbrev pub multisig_ready : Bool
  multisig_ready = is_configured && is_some multisig

  unfoldable pub can_submit : Page → Bool
  can_submit page =
      page.connected && multisig_ready && is_some page.client && not (is_proposing page.state)

  -- The guard of `onSubmit`, with what it captures: `none` is its early return.
  unfoldable pub captured : Page → Option Submission
  captured page = elim multisig [
    | none ↦ none
    | some _ ↦ if not page.connected then none else elim page.public_key [
      | none ↦ none
      | some key ↦ elim page.client [
        | none ↦ none
        | some bound ↦ some (record {
          bound = bound;
          vault = key;
          ciphertext = encrypt_threshold (pos (page.form).drawdown_bps) none;
        })
      ]
    ]
  ]

  -- `onSubmit` up to its first wait for the client.
  unfoldable pub on_submit : {E : Type 0} → App E → App E
  on_submit a = started (captured a.page) a

  module _ {E : Type 0} (host : PublicKey → Host E) (web3 : Web3) (ids : Ids) where
    -- A call on the cluster, over the host of its signer.
    unfoldable pub call_client : Submission → E → Outcome TxSig × E
    call_client call env =
        let (result, w) =
          set_encrypted_policy (host call.bound.signer) web3 ids call.vault call.ciphertext
            (record { client = call.bound.client; env = env }) in
        (result, w.env)

    unfoldable pub settle : List Submission → App E → App E
    settle [] a = a
    settle (call ∷ rest) a =
        let (result, env) = call_client call a.env in
        record a { page = record (a.page) { state = settled result }; pending = rest; env = env }

    -- The button, disabled unless `canSubmit`, is the only way to submit the form.
    unfoldable pub step : Event E → App E → App E
    unfolding can_submit on_submit settle
    step (edits field n) a = record a {
      page = record (a.page) { form = edited field n (a.page).form };
    }
    step (wallet_changes connected key client) a = record a {
      page = record (a.page) { connected = connected; public_key = key; client = client };
    }
    step submits a = if can_submit a.page then on_submit a else a
    step settles a = settle a.pending a
    step (moves_on change) a = record a { env = change a.env }

    unfoldable pub run : List (Event E) → App E → App E
    unfolding step
    run [] a = a
    run (event ∷ rest) a = run rest (step event a)
