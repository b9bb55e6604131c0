-- ===== src/Client/Rebalance.antt =====
-- `executePrivateRebalance` up to its transaction: which plans pass the checks, and what the cache
-- then decides.
use risk_claw_sol.Prelude.{
  ℕ, ◌≡◌, refl, ◌⊎◌, inl, inr, true, false, Option, none, some, arith, lookup, Bool-cases,
  Option-cases,
}
use risk_claw_sol.Types.{PublicKey, TxSig, RebalancePlan, Action, exit, reduce, hedge}
use risk_claw_sol.Errors.{Thrown, ok, throws, Outcome-cases}
use risk_claw_sol.Ids.{Web3, Ids, derive_last_rebalanced_pda}
use risk_claw_sol.Client.{
  Host, World, RealClient, is_exit_plan, fresh_write, only_exit_error, no_swig_error,
  submit_rebalance, execute_private_rebalance,
}

-- A plan that passes every check before the cache, and the policy that it names.
pub record IsReady (web3 : Web3) (ids : Ids) (plan : RebalancePlan) (c : RealClient) : Type 0 where
  pub policy : PublicKey
  pub program : PublicKey
  pub pda : PublicKey × ℕ
  pub action_exit : plan.action ≡ exit
  pub has_program : c.swig_delegation ≡ true
  pub program_set : ids.swig_delegation_program_id ≡ some program
  pub parsed : web3.new_public_key plan.position_id ≡ ok policy
  pub derived : derive_last_rebalanced_pda web3 ids policy ≡ ok pda

exit-cases : (a : Action) → (is_exit_plan a ≡ false) ⊎ (a ≡ exit)
exit-cases reduce = inl refl
exit-cases exit = inr refl
exit-cases hedge = inl refl

module _ {E : Type 0} (host : Host E) (web3 : Web3) (ids : Ids) where
  -- The signature that the client may still give for a plan, if any.
  abbrev pub cached_sig : RebalancePlan → World E → Option TxSig
  cached_sig plan w =
      fresh_write w.client.write_throttle_ms (host.date_now w.env)
        (lookup plan.position_id w.client.write_cache)

  pub rebalance_cached :
      (plan : RebalancePlan) (w : World E) {sig : TxSig}
      → IsReady web3 ids plan w.client
      → cached_sig plan w ≡ some sig
      → execute_private_rebalance host web3 ids plan w ≡ (ok sig, w)
  unfolding execute_private_rebalance
  rebalance_cached plan w r h = ground (arith, r.derived, r.program_set)

  pub rebalance_submitted :
      (plan : RebalancePlan) (w : World E)
      → (r : IsReady web3 ids plan w.client) → cached_sig plan w ≡ none
      → execute_private_rebalance host web3 ids plan w
        ≡ submit_rebalance host plan r.policy (lookup plan.position_id w.client.write_cache) w
  unfolding execute_private_rebalance
  rebalance_submitted plan w r h = ground (arith, r.derived, r.program_set)

  -- A plan that fails a check throws, and nothing has happened.
  abbrev pub Throws : RebalancePlan → World E → Type 0
  Throws plan w = (t : Thrown) × (execute_private_rebalance host web3 ids plan w ≡ (throws t, w))

  IsReady-when :
      (plan : RebalancePlan) (w : World E)
      → (plan.action ≡ exit)
      → (w.client.swig_delegation ≡ true)
      → (program : PublicKey) → (ids.swig_delegation_program_id ≡ some program)
      → Throws plan w ⊎ IsReady web3 ids plan w.client
  unfolding execute_private_rebalance
  IsReady-when plan w a b program c = elim (Outcome-cases (web3.new_public_key plan.position_id)) [
    | inl (t, e) ↦ inl (t, ground arith)
    | inr (policy, e) ↦ elim (Outcome-cases (derive_last_rebalanced_pda web3 ids policy)) [
      | inl (t, d) ↦ inl (t, ground (arith, d))
      | inr (pda, d) ↦ inr (record {
        policy = policy;
        program = program;
        pda = pda;
        action_exit = a;
        has_program = b;
        program_set = c;
        parsed = e;
        derived = d;
      })
    ]
  ]

  pub IsReady-cases :
      (plan : RebalancePlan) (w : World E) → Throws plan w ⊎ IsReady web3 ids plan w.client
  unfolding execute_private_rebalance
  IsReady-cases plan w = elim (exit-cases (plan.action)) [
    | inl other ↦ inl (only_exit_error plan.action, ground arith)
    | inr a ↦ elim (Bool-cases w.client.swig_delegation) [
      | inr b ↦ inl (no_swig_error, ground arith)
      | inl b ↦ elim (Option-cases ids.swig_delegation_program_id) [
        | inl c ↦ inl (no_swig_error, ground arith)
        | inr (program, c) ↦ IsReady-when plan w a b program c
      ]
    ]
  ]
