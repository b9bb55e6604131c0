-- ===== src/Devnet/WellFormed.antt =====
-- What every policy account satisfies after any history.
use risk_claw_sol.Prelude.{
  inl, inr, ℕ, ◌+◌, ◌≡◌, refl, List, [], ◌∷◌, some, ◌==◌, ==_iff, ap, sym, subst, Bool-cases,
  some_path,
}
use risk_claw_sol.Types.{PublicKey}
use risk_claw_sol.Programs.RiskPolicy.{RiskPolicy, init_handle, update_handle}
use risk_claw_sol.Client.{Instruction, init_policy, update_policy, execute_rebalance}
use risk_claw_sol.Devnet.{
  Deployment, Devnet, landed, TxResult-cases, policy_address, process, Activity, transaction,
  seconds, after, run, write_account, Accounts,
}
use risk_claw_sol.Devnet.Execution.{execution_landed}
use risk_claw_sol.Devnet.Ownership.{IsPolicyAt, init_landed, update_landed}

module _ (deployment : Deployment) where
  -- Every account stands at the address derived from its owner, with the derived bump, and its hash is
  -- that of its ciphertext and handle.
  abbrev pub AllPolicies : Accounts RiskPolicy → Type 0
  AllPolicies m = (a : PublicKey) (p : RiskPolicy) → m a ≡ some p → IsPolicyAt deployment a p

  AllPolicies-write :
      (m : Accounts RiskPolicy) (k : PublicKey) (q : RiskPolicy)
      → AllPolicies m
      → IsPolicyAt deployment k q
      → AllPolicies (write_account m k q)
  AllPolicies-write m k q h new a p at = elim (Bool-cases (a == k)) [
    | inl same ↦
        let q_is : q ≡ p = some_path (rw same at at) in
        subst (λ r. IsPolicyAt deployment a r) q_is
          (subst (λ j. IsPolicyAt deployment j q) (sym ((==_iff a k).0 same)) new)
    | inr other ↦ h a p (rw other at at)
  ]

  init-IsPolicyAt :
      (vault : PublicKey) (ciphertext arcium : List ℕ) (now : ℕ) (found : PublicKey × ℕ)
      → policy_address deployment vault ≡ landed found
      → IsPolicyAt deployment found.0 (init_handle vault ciphertext arcium now found.1)
  unfolding init_handle
  init-IsPolicyAt vault ciphertext arcium now found located = record {
    located = located;
    hashed = refl;
  }

  update-IsPolicyAt :
      (a : PublicKey) (p : RiskPolicy) (ciphertext arcium : List ℕ) (now : ℕ)
      → IsPolicyAt deployment a p
      → IsPolicyAt deployment a (update_handle p ciphertext arcium now)
  unfolding update_handle
  update-IsPolicyAt a p ciphertext arcium now h = record { located = h.located; hashed = refl }

  process-AllPolicies :
      (wallet : PublicKey) (i : Instruction) (d d' : Devnet)
      → process deployment wallet i d ≡ landed d'
      → AllPolicies d.policies
      → AllPolicies d'.policies
  process-AllPolicies wallet (init_policy ciphertext arcium vault) d d' h all =
      let (found, located, by, free, now_is) =
        init_landed deployment wallet ciphertext arcium vault d d' h in
      subst AllPolicies (sym now_is) (
        AllPolicies-write d.policies found.0
          (init_handle vault ciphertext arcium d.unix_timestamp found.1) all
          (init-IsPolicyAt vault ciphertext arcium d.unix_timestamp found located))
  process-AllPolicies wallet (update_policy ciphertext arcium vault) d d' h all =
      let (found, q, located, by, stored, owned, bump, now_is) =
        update_landed deployment wallet ciphertext arcium vault d d' h in
      subst AllPolicies (sym now_is) (
        AllPolicies-write d.policies found.0 (update_handle q ciphertext arcium d.unix_timestamp)
          all
          (update-IsPolicyAt found.0 q ciphertext arcium d.unix_timestamp (all found.0 q stored)))
  process-AllPolicies wallet (execute_rebalance policy action size slippage expected min) d d' h
        all =
      let (found, located, allowed, is_after) =
        execution_landed deployment
          (record {
            policy = policy;
            guardian_authority = wallet;
            action = action;
            size_bps = size;
            max_slippage_bps = slippage;
            expected_out = expected;
            min_out = min;
          })
          d d' h in
      subst AllPolicies (ap (λ (e : Devnet). e.policies) (sym is_after)) all

  -- If every policy account stands at the address derived from its owner, with the derived bump and
  -- with the hash of its ciphertext and handle, then so does every policy account after any history.
  pub policies_well_formed :
      (history : List Activity) (d : Devnet)
      → AllPolicies d.policies
      → AllPolicies (run deployment history d).policies
  unfolding run
  policies_well_formed [] d all = all
  policies_well_formed (seconds n ∷ rest) d all =
      policies_well_formed rest (record d { unix_timestamp = d.unix_timestamp + n }) all
  policies_well_formed (transaction wallet i ∷ rest) d all =
      policies_well_formed rest (after (process deployment wallet i d) d)
        (elim (TxResult-cases (process deployment wallet i d)) [
          | inl (e, refused) ↦ rw refused all
          | inr (d', done) ↦ rw done (process-AllPolicies wallet i d d' done all)
        ])
