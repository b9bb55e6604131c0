-- ===== src/App/PolicyPage/Ranges.antt =====
-- The form keeps the ranges of its sliders, and so does every threshold that leaves the page.
use risk_claw_sol.Prelude.{
  ℕ, ◌≤◌, ◌≡◌, refl, Bool, List, [], ◌∷◌, ◌++◌, All, Option, none, some, ap, ◌∙◌, sym, inl, inr,
  Bool-cases, Option-cases, arith,
}
use risk_claw_sol.Prelude.Int.{pos}
use risk_claw_sol.Types.{PublicKey}
use risk_claw_sol.Errors.{ok}
use risk_claw_sol.Encrypt.{encrypt_threshold, test_decrypt_placeholder}
use risk_claw_sol.Encrypt.Packing.{test_decrypt_placeholder-encrypt_threshold}
use risk_claw_sol.Ids.{Web3, Ids}
use risk_claw_sol.Client.{Host}
use risk_claw_sol.App.PolicyPage.Inputs.{input_of, Reports}
use risk_claw_sol.App.PolicyPage.{
  Form, Field, Page, Submission, Event, drawdown_limit, max_notional, max_slippage, expires_at,
  edited, edits, wallet_changes, submits, settles, moves_on, App, can_submit, captured, started,
  on_submit, settle, step, run,
}

-- An edit is of a value that the input reports.
abbrev pub IsDelivered : {E : Type 0} → Event E → Type 0
IsDelivered (edits field n) = (form : Form) → Reports (input_of field form) n
IsDelivered (wallet_changes connected key client) = Unit
IsDelivered submits = Unit
IsDelivered settles = Unit
IsDelivered (moves_on change) = Unit

pub record InRange (form : Form) : Type 0 where
  pub drawdown_low : 100 ≤ form.drawdown_bps
  pub drawdown_high : form.drawdown_bps ≤ 10000
  pub slippage : form.max_slippage_bps ≤ 1000

edited-InRange :
    (field : Field) (n : ℕ) (form : Form)
    → Reports (input_of field form) n
    → InRange form
    → InRange (edited field n form)
unfolding input_of
edited-InRange drawdown_limit n form (low, high) r = record {
  drawdown_low = low;
  drawdown_high = high;
  slippage = r.slippage;
}
edited-InRange max_notional n form d r = record {
  drawdown_low = r.drawdown_low;
  drawdown_high = r.drawdown_high;
  slippage = r.slippage;
}
edited-InRange max_slippage n form (low, high) r = record {
  drawdown_low = r.drawdown_low;
  drawdown_high = r.drawdown_high;
  slippage = high;
}
edited-InRange expires_at n form d r = record {
  drawdown_low = r.drawdown_low;
  drawdown_high = r.drawdown_high;
  slippage = r.slippage;
}

-- A call under way whose ciphertext reads back as a threshold in the slider's range.
abbrev pub IsLegal : Submission → Type 0
IsLegal call =
    (threshold : ℕ) × (test_decrypt_placeholder call.ciphertext ≡ ok threshold)
    × (100 ≤ threshold)
    × (threshold ≤ 10000)

-- The form is in range, and so is every threshold on its way to the chain.
pub record IsSound {E : Type 0} (a : App E) : Type 0 where
  pub form : InRange a.page.form
  pub calls : All IsLegal a.pending

All-append_one :
    (calls : List Submission) (call : Submission)
    → All IsLegal calls
    → IsLegal call
    → All IsLegal (calls ++ (call ∷ []))
All-append_one [] call h l = (l, tt)
All-append_one (c ∷ calls) call h l = (h.0, All-append_one calls call h.1 l)

-- What the form encrypts reads back as its drawdown limit.
encrypted-legal :
    (form : Form)
    → InRange form
    → (threshold : ℕ) × (test_decrypt_placeholder (encrypt_threshold (pos form.drawdown_bps) none)
        ≡ ok threshold)
      × (100 ≤ threshold)
      × (threshold ≤ 10000)
encrypted-legal form r = (
  form.drawdown_bps,
  test_decrypt_placeholder-encrypt_threshold (pos form.drawdown_bps) none
      ∙ ap ok (omega (arith, r.drawdown_high)),
  r.drawdown_low,
  r.drawdown_high,
)

module _ (multisig : Option PublicKey) (is_configured : Bool) {E : Type 0}
    (host : PublicKey → Host E) (web3 : Web3) (ids : Ids) where
  captured-ciphertext :
      (page : Page) (call : Submission)
      → captured multisig is_configured page ≡ some call
      → call.ciphertext ≡ encrypt_threshold (pos page.form.drawdown_bps) none
  unfolding captured
  captured-ciphertext page call taken = elim (Option-cases multisig) [
    | inl a ↦ ground (arith, taken, a)
    | inr (m, a) ↦ elim (Bool-cases page.connected) [
      | inr b ↦ ground (arith, taken, a, b)
      | inl b ↦ elim (Option-cases page.public_key) [
        | inl c ↦ ground (arith, taken, a, b, c)
        | inr (key, c) ↦ elim (Option-cases page.client) [
          | inl d ↦ ground (arith, taken, a, b, c, d)
          | inr (bound, d) ↦ ground (arith, taken, a, b, c, d)
        ]
      ]
    ]
  ]

  captured-IsLegal :
      (page : Page) (call : Submission)
      → captured multisig is_configured page ≡ some call
      → InRange page.form
      → IsLegal call
  captured-IsLegal page call taken r =
      let (threshold, reads, low, high) = encrypted-legal page.form r in
      (
        threshold,
        ap test_decrypt_placeholder (captured-ciphertext page call taken) ∙ reads,
        low,
        high,
      )

  started-IsSound :
      (o : Option Submission) (a : App E)
      → o ≡ captured multisig is_configured a.page
      → IsSound a
      → IsSound (started o a)
  started-IsSound none a same h = h
  started-IsSound (some call) a same h = record {
    form = h.form;
    calls = All-append_one a.pending call h.calls (captured-IsLegal a.page call (sym same) h.form);
  }

  settle-IsSound :
      (calls : List Submission) (a : App E)
      → All IsLegal calls
      → IsSound a
      → IsSound (settle multisig is_configured host web3 ids calls a)
  unfolding settle
  settle-IsSound [] a l h = h
  settle-IsSound (call ∷ rest) a l h = record { form = h.form; calls = l.1 }

  step-IsSound :
      (event : Event E) (a : App E)
      → IsDelivered event
      → IsSound a
      → IsSound (step multisig is_configured host web3 ids event a)
  unfolding step on_submit
  step-IsSound (edits field n) a d h = record {
    form = edited-InRange field n a.page.form (d a.page.form) h.form;
    calls = h.calls;
  }
  step-IsSound (wallet_changes connected key client) a d h = record {
    form = h.form;
    calls = h.calls;
  }
  step-IsSound submits a d h = elim (Bool-cases (can_submit multisig is_configured a.page)) [
    | inl enabled ↦ rw enabled (started-IsSound (captured multisig is_configured a.page) a refl h)
    | inr disabled ↦ rw disabled h
  ]
  step-IsSound settles a d h = settle-IsSound a.pending a h.calls h
  step-IsSound (moves_on change) a d h = record { form = h.form; calls = h.calls }

  -- The two sliders report only values between their bounds; a number box reports anything. From a form
  -- in the ranges of its sliders, such as the initial one, and calls under way that are legal, such as
  -- none: after any such events of the page, and whatever wallets and the cluster do, the form is in
  -- range, and every ciphertext on its way to the chain reads back as a drawdown limit between 100 and
  -- 10000 basis points.
  pub run-IsSound :
      (events : List (Event E)) (a : App E)
      → All IsDelivered events
      → IsSound a
      → IsSound (run multisig is_configured host web3 ids events a)
  unfolding run
  run-IsSound [] a d h = h
  run-IsSound (event ∷ rest) a d h =
      run-IsSound rest (step multisig is_configured host web3 ids event a) d.1
        (step-IsSound event a d.0 h)
