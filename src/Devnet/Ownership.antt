-- ===== src/Devnet/Ownership.antt =====
-- Who can change a policy account, and what every policy account satisfies.
use risk_claw_sol.Prelude.{
  some_path, ℕ, ◌+◌, ◌≡◌, refl, ◌≢◌, ◌⊎◌, inl, inr, List, [], ◌∷◌, none, some, arith, ◌==◌, ==_iff,
  ap, sym, ◌∙◌, Bool-cases, Option-cases, All,
}
use risk_claw_sol.Types.{PublicKey}
use risk_claw_sol.Encrypt.{Uint8Array}
use risk_claw_sol.Programs.RiskPolicy.{RiskPolicy, hash_of, init_handle, update_handle}
use risk_claw_sol.Client.{Instruction, init_policy, update_policy, execute_rebalance}
use risk_claw_sol.Devnet.{
  Deployment, Devnet, landed, TxResult-cases, policy_address, process, Activity, transaction,
  seconds, after, run, write_account,
}
use risk_claw_sol.Devnet.Execution.{execution_landed}

-- An update leaves the owner, the bump and the time of the last check, and sets the rest.
pub record IsUpdateOf (p : RiskPolicy) (ciphertext arcium : List ℕ) (now : ℕ) (p' : RiskPolicy)
    : Type 0 where
  pub same_owner : p'.owning_multisig_vault ≡ p.owning_multisig_vault
  pub same_bump : p'.bump ≡ p.bump
  pub same_last_check : p'.last_check_at ≡ p.last_check_at
  pub new_ciphertext : p'.ciphertext_ref ≡ ciphertext
  pub new_handle : p'.arcium_handle ≡ arcium
  pub new_hash : p'.policy_hash ≡ hash_of ciphertext arcium
  pub new_time : p'.updated_at ≡ now

update_handle-IsUpdateOf :
    (p : RiskPolicy) (ciphertext arcium : List ℕ) (now : ℕ)
    → IsUpdateOf p ciphertext arcium now (update_handle p ciphertext arcium now)
unfolding update_handle
update_handle-IsUpdateOf p ciphertext arcium now = record {
  same_owner = refl;
  same_bump = refl;
  same_last_check = refl;
  new_ciphertext = refl;
  new_handle = refl;
  new_hash = refl;
  new_time = refl;
}

module _ (deployment : Deployment) where
  -- Where an account stands, and what its hash is of.
  pub record IsPolicyAt (a : PublicKey) (p : RiskPolicy) : Type 0 where
    pub located : policy_address deployment p.owning_multisig_vault ≡ landed (a, p.bump)
    pub hashed : p.policy_hash ≡ hash_of p.ciphertext_ref p.arcium_handle

  pub init_landed :
      (wallet : PublicKey) (ciphertext arcium : Uint8Array) (vault : PublicKey) (d d' : Devnet)
      → process deployment wallet (init_policy ciphertext arcium vault) d ≡ landed d'
      → (found : PublicKey × ℕ) × (policy_address deployment vault ≡ landed found)
        × (vault ≡ wallet)
        × (d.policies found.0 ≡ none)
        × (d'.policies
            ≡ write_account d.policies found.0
                (init_handle vault ciphertext arcium d.unix_timestamp found.1))
  unfolding process
  init_landed wallet ciphertext arcium vault d d' h =
      elim (TxResult-cases (policy_address deployment vault)) [
        | inl (e, nowhere) ↦ ground (arith, nowhere)
        | inr (found, located) ↦ (
          found,
          located,
          ground (arith, located),
          ground (arith, located),
          ground (arith, located),
        )
      ]

  pub update_landed :
      (wallet : PublicKey) (ciphertext arcium : Uint8Array) (vault : PublicKey) (d d' : Devnet)
      → process deployment wallet (update_policy ciphertext arcium vault) d ≡ landed d'
      → (found : PublicKey × ℕ) × (p : RiskPolicy) × (policy_address deployment vault
          ≡ landed found)
        × (vault ≡ wallet)
        × (d.policies found.0 ≡ some p)
        × (p.owning_multisig_vault ≡ vault)
        × (p.bump ≡ found.1)
        × (d'.policies
            ≡ write_account d.policies found.0 (update_handle p ciphertext arcium d.unix_timestamp))
  unfolding process
  update_landed wallet ciphertext arcium vault d d' h =
      elim (TxResult-cases (policy_address deployment vault)) [
        | inl (e, nowhere) ↦ ground (arith, nowhere)
        | inr (found, located) ↦ elim (Option-cases (d.policies found.0)) [
          | inl missing ↦ ground (arith, located, missing)
          | inr (p, stored) ↦ (
            found,
            p,
            located,
            ground (arith, located, stored),
            stored,
            ground (arith, located, stored),
            ground (arith, located, stored),
            ground (arith, located, stored),
          )
        ]
      ]

  -- What one transaction may do to an account that exists: nothing, or its owner's update.
  abbrev pub OwnerOnly : PublicKey → PublicKey → RiskPolicy → Devnet → Type 0
  OwnerOnly wallet a p d' =
      (d'.policies a ≡ some p)
      ⊎ ((wallet ≡ p.owning_multisig_vault)
          × ((p' : RiskPolicy) × (d'.policies a ≡ some p')
              × (p'.owning_multisig_vault ≡ p.owning_multisig_vault)
              × (p'.bump ≡ p.bump)))

  update_one :
      (wallet a : PublicKey) (d d' : Devnet) (p q : RiskPolicy) (found : PublicKey × ℕ)
      (ciphertext arcium : List ℕ) (vault : PublicKey)
      → vault ≡ wallet
      → d.policies found.0 ≡ some q
      → q.owning_multisig_vault ≡ vault
      → d'.policies
        ≡ write_account d.policies found.0 (update_handle q ciphertext arcium d.unix_timestamp)
      → d.policies a ≡ some p
      → OwnerOnly wallet a p d'
  update_one wallet a d d' p q found ciphertext arcium vault by stored owned now_is at =
      elim (Bool-cases (a == found.0)) [
        | inr other ↦ inl (ap (λ m. m a) now_is ∙ rw other at)
        | inl same ↦
            let q_is : q ≡ p =
              some_path (sym stored ∙ ap d.policies (sym ((==_iff a found.0).0 same)) ∙ at) in
            let q' : RiskPolicy = update_handle q ciphertext arcium d.unix_timestamp in
            let upd = update_handle-IsUpdateOf q ciphertext arcium d.unix_timestamp in
            inr (
              sym by ∙ sym owned ∙ ap (λ (r : RiskPolicy). r.owning_multisig_vault) q_is,
              (
                q',
                ap (λ m. m a) now_is ∙ rw same refl,
                upd.same_owner ∙ ap (λ (r : RiskPolicy). r.owning_multisig_vault) q_is,
                upd.same_bump ∙ ap (λ (r : RiskPolicy). r.bump) q_is,
              ),
            )
      ]

  -- A transaction that lands changes a policy account only if the owning vault signed it, and then the account
  -- keeps its owner and its bump.
  pub process-OwnerOnly :
      (wallet : PublicKey) (i : Instruction) (d d' : Devnet) (a : PublicKey) (p : RiskPolicy)
      → process deployment wallet i d ≡ landed d'
      → d.policies a ≡ some p
      → OwnerOnly wallet a p d'
  process-OwnerOnly wallet (init_policy ciphertext arcium vault) d d' a p h at =
      let (found, located, by, free, now_is) = init_landed wallet ciphertext arcium vault d d' h in
      elim (Bool-cases (a == found.0)) [
        | inr other ↦ inl (ap (λ m. m a) now_is ∙ rw other at)
        | inl same ↦ cc (at, free, ap d.policies ((==_iff a found.0).0 same))
      ]
  process-OwnerOnly wallet (update_policy ciphertext arcium vault) d d' a p h at =
      let (found, q, located, by, stored, owned, bump, now_is) =
        update_landed wallet ciphertext arcium vault d d' h in
      update_one wallet a d d' p q found ciphertext arcium vault by stored owned now_is at
  process-OwnerOnly wallet (execute_rebalance policy action size slippage expected min) d d' a p h
        at =
      let (found, located, allowed, is_after) =
        execution_landed deployment
          (record {
            policy = policy;
            guardian_authority = wallet;
            action = action;
            size_bps = size;
            max_slippage_bps = slippage;
            expected_out = expected;
            min_out = min;
          })
          d d' h in
      inl (ap (λ (e : Devnet). e.policies a) is_after ∙ at)

  -- The activity is not a transaction that the key signed.
  abbrev pub NotSignedBy : PublicKey → Activity → Type 0
  NotSignedBy k (transaction wallet i) = wallet ≢ k
  NotSignedBy k (seconds n) = Unit

  -- In any history in which its owner signs nothing, a policy account stays as it is.
  pub policy_unchanged :
      (history : List Activity) (d : Devnet) (a : PublicKey) (p : RiskPolicy)
      → All (NotSignedBy p.owning_multisig_vault) history
      → d.policies a ≡ some p
      → (run deployment history d).policies a ≡ some p
  unfolding run
  policy_unchanged [] d a p quiet at = at
  policy_unchanged (seconds n ∷ rest) d a p quiet at =
      policy_unchanged rest (record d { unix_timestamp = d.unix_timestamp + n }) a p quiet.1 at
  policy_unchanged (transaction wallet i ∷ rest) d a p quiet at =
      policy_unchanged rest (after (process deployment wallet i d) d) a p quiet.1
        (elim (TxResult-cases (process deployment wallet i d)) [
          | inl (e, refused) ↦ rw refused at
          | inr (d', done) ↦ elim (process-OwnerOnly wallet i d d' a p done at) [
            | inl same ↦ rw done same
            | inr (by, changed) ↦ absurd (quiet.0 by)
          ]
        ])
