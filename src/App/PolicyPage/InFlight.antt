-- ===== src/App/PolicyPage/InFlight.antt =====
-- The policy editor has at most one call under way, and says so.
use risk_claw_sol.Prelude.{
  ◌≡◌, refl, inl, inr, Bool, true, false, List, [], ◌∷◌, Option, arith, Bool-cases, Option-cases,
  subst,
}
use risk_claw_sol.Types.{PublicKey, TxSig}
use risk_claw_sol.Errors.{Outcome, ok, throws}
use risk_claw_sol.Ids.{Web3, Ids}
use risk_claw_sol.Client.{Host}
use risk_claw_sol.App.PolicyPage.{
  ProposalState, idle, proposing, proposed, error, Page, Submission, App, Event, edits,
  wallet_changes, submits, settles, moves_on, is_proposing, can_submit, captured, on_submit, settle,
  step, run, settled,
}

-- One call is under way while the page says "Proposing…", else none.
abbrev pub Matches : ProposalState → List Submission → Type 0
Matches proposing calls = (call : Submission) × (calls ≡ call ∷ [])
Matches idle calls = calls ≡ []
Matches (proposed _) calls = calls ≡ []
Matches (error _) calls = calls ≡ []

abbrev pub IsMatched : {E : Type 0} → App E → Type 0
IsMatched a = Matches a.page.state a.pending

Matches-idle :
    (s : ProposalState) (calls : List Submission)
    → is_proposing s ≡ false
    → Matches s calls
    → calls ≡ []
Matches-idle proposing calls quiet h = absurd (cc)
Matches-idle idle calls quiet h = h
Matches-idle (proposed _) calls quiet h = h
Matches-idle (error _) calls quiet h = h

Matches-settled :
    (o : Outcome TxSig) (calls : List Submission) → calls ≡ [] → Matches (settled o) calls
Matches-settled (ok sig) calls h = h
Matches-settled (throws thrown) calls h = h

Matches-tail :
    (s : ProposalState) (call : Submission) (rest : List Submission)
    → Matches s (call ∷ rest)
    → rest ≡ []
Matches-tail proposing call rest (only, h) = cc
Matches-tail idle call rest h = cc
Matches-tail (proposed _) call rest h = cc
Matches-tail (error _) call rest h = cc

module _ (multisig : Option PublicKey) (is_configured : Bool) where
  can_submit-quiet :
      (page : Page)
      → can_submit multisig is_configured page ≡ true
      → is_proposing page.state ≡ false
  unfolding can_submit
  can_submit-quiet page h = ground arith

  module _ {E : Type 0} where
    submit-IsMatched :
        (a : App E)
        → can_submit multisig is_configured a.page ≡ true
        → IsMatched a
        → IsMatched (on_submit multisig is_configured a)
    unfolding on_submit
    submit-IsMatched a enabled m = elim (Option-cases (captured multisig is_configured a.page)) [
      | inl early ↦ rw (early, on_submit) m
      | inr (call, go) ↦
          let quiet = Matches-idle a.page.state a.pending (can_submit-quiet a.page enabled) m in
          rw (go, on_submit) (call, rw quiet refl)
    ]

    module _ (host : PublicKey → Host E) (web3 : Web3) (ids : Ids) where
      settle-IsMatched :
          (calls : List Submission) (a : App E)
          → a.pending ≡ calls
          → IsMatched a
          → IsMatched (settle multisig is_configured host web3 ids calls a)
      unfolding settle
      settle-IsMatched [] a same m = m
      settle-IsMatched (call ∷ rest) a same m =
          Matches-settled _ rest
            (Matches-tail a.page.state call rest (subst (Matches a.page.state) same m))

      step-IsMatched :
          (event : Event E) (a : App E)
          → IsMatched a
          → IsMatched (step multisig is_configured host web3 ids event a)
      unfolding step
      step-IsMatched (edits field n) a m = m
      step-IsMatched (wallet_changes connected key client) a m = m
      step-IsMatched submits a m = elim (Bool-cases (can_submit multisig is_configured a.page)) [
        | inl enabled ↦ rw enabled (submit-IsMatched a enabled m)
        | inr disabled ↦ rw disabled m
      ]
      step-IsMatched settles a m = settle-IsMatched a.pending a refl m
      step-IsMatched (moves_on change) a m = m

      -- From a page with no call under way, whatever the operator, the wallet and the cluster do, the
      -- page says that it is proposing exactly while one call is under way; otherwise there is none.
      pub run-IsMatched :
          (events : List (Event E)) (a : App E)
          → IsMatched a
          → IsMatched (run multisig is_configured host web3 ids events a)
      unfolding run
      run-IsMatched [] a m = m
      run-IsMatched (event ∷ rest) a m =
          run-IsMatched rest (step multisig is_configured host web3 ids event a)
            (step-IsMatched event a m)
