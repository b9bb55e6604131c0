-- ===== src/App/PolicyPage/OtherFields.antt =====
-- Of the form's four fields only the drawdown limit has an effect.
use risk_claw_sol.Prelude.{
  ◌≡◌, refl, Bool, true, false, List, [], ◌∷◌, Option, none, some, ap, sym, ◌∙◌, if◌then◌else◌,
}
use risk_claw_sol.Types.{PublicKey}
use risk_claw_sol.Ids.{Web3, Ids}
use risk_claw_sol.Client.{Host}
use risk_claw_sol.App.PolicyPage.{
  Submission, App, Event, edits, wallet_changes, submits, settles, moves_on, drawdown_limit,
  max_notional, max_slippage, expires_at, can_submit, captured, started, on_submit, settle, step,
  run,
}

-- The three other fields forgotten.
abbrev pub without_others : {E : Type 0} → App E → App E
without_others a = record a {
  page = record (a.page) {
    form = record {
      drawdown_bps = ((a.page).form).drawdown_bps;
      max_notional_usd = 0;
      max_slippage_bps = 0;
      expires_at_unix = 0;
    };
  };
}

-- The events without the edits of those fields.
abbrev pub relevant : {E : Type 0} → List (Event E) → List (Event E)
relevant [] = []
relevant (edits drawdown_limit n ∷ rest) = edits drawdown_limit n ∷ relevant rest
relevant (edits max_notional n ∷ rest) = relevant rest
relevant (edits max_slippage n ∷ rest) = relevant rest
relevant (edits expires_at n ∷ rest) = relevant rest
relevant (wallet_changes connected key client ∷ rest) =
    wallet_changes connected key client ∷ relevant rest
relevant (submits ∷ rest) = submits ∷ relevant rest
relevant (settles ∷ rest) = settles ∷ relevant rest
relevant (moves_on change ∷ rest) = moves_on change ∷ relevant rest

started-without_others :
    {E : Type 0} (o : Option Submission) (a : App E)
    → without_others (started o a) ≡ without_others (started o (without_others a))
started-without_others none a = refl
started-without_others (some call) a = refl

chosen-without_others :
    {E : Type 0} (b : Bool) (x y a : App E)
    → without_others x ≡ without_others y
    → without_others (if b then x else a) ≡ without_others (if b then y else without_others a)
chosen-without_others true x y a h = h
chosen-without_others false x y a h = refl

module _ (multisig : Option PublicKey) (is_configured : Bool) where
  module _ {E : Type 0} where
    submit-without_others :
        (a : App E)
        → without_others (on_submit multisig is_configured a)
          ≡ without_others (on_submit multisig is_configured (without_others a))
    unfolding on_submit captured
    submit-without_others a = started-without_others (captured multisig is_configured a.page) a

    module _ (host : PublicKey → Host E) (web3 : Web3) (ids : Ids) where
      settle-without_others :
          (calls : List Submission) (a : App E)
          → without_others (settle multisig is_configured host web3 ids calls a)
            ≡ without_others (settle multisig is_configured host web3 ids calls (without_others a))
      unfolding settle
      settle-without_others [] a = refl
      settle-without_others (call ∷ rest) a = refl

      step-without_others :
          (event : Event E) (a : App E)
          → without_others (step multisig is_configured host web3 ids event a)
            ≡ without_others (step multisig is_configured host web3 ids event (without_others a))
      unfolding step can_submit
      step-without_others (edits drawdown_limit n) a = refl
      step-without_others (edits max_notional n) a = refl
      step-without_others (edits max_slippage n) a = refl
      step-without_others (edits expires_at n) a = refl
      step-without_others (wallet_changes connected key client) a = refl
      step-without_others submits a =
          chosen-without_others (can_submit multisig is_configured a.page)
            (on_submit multisig is_configured a)
            (on_submit multisig is_configured (without_others a)) a (submit-without_others a)
      step-without_others settles a = settle-without_others a.pending a
      step-without_others (moves_on change) a = refl

      step-alike :
          (event : Event E) (a b : App E)
          → without_others a ≡ without_others b
          → without_others (step multisig is_configured host web3 ids event a)
            ≡ without_others (step multisig is_configured host web3 ids event b)
      step-alike event a b alike =
          step-without_others event a
          ∙ ap (λ c. without_others (step multisig is_configured host web3 ids event c)) alike
          ∙ sym (step-without_others event b)

      run-alike :
          (events : List (Event E)) (a b : App E)
          → without_others a ≡ without_others b
          → without_others (run multisig is_configured host web3 ids events a)
            ≡ without_others (run multisig is_configured host web3 ids (relevant events) b)
      unfolding run
      run-alike [] a b alike = alike
      run-alike (edits drawdown_limit n ∷ rest) a b alike =
          run-alike rest _ _ (step-alike (edits drawdown_limit n) a b alike)
      run-alike (edits max_notional n ∷ rest) a b alike = run-alike rest _ b alike
      run-alike (edits max_slippage n ∷ rest) a b alike = run-alike rest _ b alike
      run-alike (edits expires_at n ∷ rest) a b alike = run-alike rest _ b alike
      run-alike (wallet_changes connected key client ∷ rest) a b alike =
          run-alike rest _ _ (step-alike (wallet_changes connected key client) a b alike)
      run-alike (submits ∷ rest) a b alike = run-alike rest _ _ (step-alike submits a b alike)
      run-alike (settles ∷ rest) a b alike = run-alike rest _ _ (step-alike settles a b alike)
      run-alike (moves_on change ∷ rest) a b alike =
          run-alike rest _ _ (step-alike (moves_on change) a b alike)

      -- Editing the notional cap, the slippage limit or the expiry changes nothing but those fields:
      -- without these edits the page shows the same, the same calls are under way, and the cluster
      -- is the same, whatever happens.
      pub other_fields_ignored :
          (events : List (Event E)) (a : App E)
          → without_others (run multisig is_configured host web3 ids events a)
            ≡ without_others (run multisig is_configured host web3 ids (relevant events) a)
      other_fields_ignored events a = run-alike events a a refl
