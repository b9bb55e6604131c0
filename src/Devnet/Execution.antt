-- ===== src/Devnet/Execution.antt =====
-- What a transaction that lands has done to the chain.
use risk_claw_sol.Prelude.{suc, ℕ, ◌≡◌, inl, inr, ◌∷◌, arith}
use risk_claw_sol.Types.{PublicKey}
use risk_claw_sol.Encrypt.{Uint8Array}
use risk_claw_sol.Programs.SwigDelegation.{
  Result-cases, LastRebalanced, ExecuteRebalance, handle, init_if_needed,
}
use risk_claw_sol.Programs.SwigDelegation.Gates.{IsAllowed, IsAllowed-of_handle, executed}
use risk_claw_sol.Client.{init_policy, update_policy, execute_rebalance}
use risk_claw_sol.Devnet.{
  TxResult-cases, Deployment, Devnet, landed, last_rebalanced_address, process, write_account,
}

-- The part of the chain that `swig_delegation` keeps is as it was.
abbrev pub SameRebalances : Devnet → Devnet → Type 0
SameRebalances d d' =
    (d'.unix_timestamp ≡ d.unix_timestamp)
    × (d'.last_rebalanced ≡ d.last_rebalanced)
    × (d'.events ≡ d.events)

-- The chain after a call that was executed.
abbrev pub after_execution : ExecuteRebalance → PublicKey × ℕ → Devnet → Devnet
after_execution x found d =
    let (lr, ev) = executed x d.unix_timestamp found.1 in
    record d {
      last_rebalanced = write_account d.last_rebalanced found.0 lr;
      events = ev ∷ d.events;
      count = suc d.count;
    }

abbrev pub stored_or_new : Devnet → PublicKey → LastRebalanced
stored_or_new d k = init_if_needed (d.last_rebalanced k)

module _ (deployment : Deployment) where
  -- A call that lands met every gate, and did what an executed call does.
  pub execution_landed :
      (x : ExecuteRebalance) (d d' : Devnet)
      → process deployment x.guardian_authority
          (execute_rebalance x.policy x.action x.size_bps x.max_slippage_bps x.expected_out
            x.min_out)
          d
        ≡ landed d'
      → (found : PublicKey × ℕ) × (last_rebalanced_address deployment x.policy ≡ landed found)
        × IsAllowed x d.unix_timestamp (stored_or_new d found.0)
        × (d' ≡ after_execution x found d)
  unfolding process
  execution_landed x d d' h = elim (TxResult-cases (last_rebalanced_address deployment x.policy)) [
    | inl (e, none_found) ↦ cc (h, none_found)
    | inr (found, located) ↦
        elim (Result-cases (handle x d.unix_timestamp found.1 (stored_or_new d found.0))) [
          | inl (e, refused) ↦ ground (arith, located, refused)
          | inr (done, handled) ↦
              let (allowed, is_executed) =
                IsAllowed-of_handle x d.unix_timestamp found.1 (stored_or_new d found.0) handled in
              (found, located, allowed, ground (arith, located, handled, is_executed))
        ]
  ]

  pub init_keeps :
      (wallet : PublicKey) (ciphertext arcium : Uint8Array) (vault : PublicKey) (d d' : Devnet)
      → process deployment wallet (init_policy ciphertext arcium vault) d ≡ landed d'
      → SameRebalances d d'
  unfolding process
  init_keeps wallet ciphertext arcium vault d d' h = ground arith

  pub update_keeps :
      (wallet : PublicKey) (ciphertext arcium : Uint8Array) (vault : PublicKey) (d d' : Devnet)
      → process deployment wallet (update_policy ciphertext arcium vault) d ≡ landed d'
      → SameRebalances d d'
  unfolding process
  update_keeps wallet ciphertext arcium vault d d' h = ground arith
