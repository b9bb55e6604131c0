-- ===== src/Session/Policy.antt =====
-- `setEncryptedPolicy` on the cluster: what is stored, and that it can be read back.
use risk_claw_sol.Prelude.{
  ℕ, suc, ◌≡◌, refl, List, [], ◌∷◌, Option, none, some, arith, ==_refl, ap, ◌∙◌, inl, inr,
  Option-cases, true, false, length,
}
use risk_claw_sol.Prelude.Int.{ℤ}
use risk_claw_sol.Types.{PublicKey}
use risk_claw_sol.Errors.{Outcome, ok, throws}
use risk_claw_sol.Encrypt.{
  Uint8Array, new_uint8_array, to_biguint64, encrypt_threshold, test_decrypt_placeholder,
}
use risk_claw_sol.Encrypt.Packing.{
  encrypt_threshold_bytes, test_decrypt_placeholder-encrypt_threshold,
}
use risk_claw_sol.Ids.{Ids, derive_risk_policy_pda, literal, key, risk_policy_seed}
use risk_claw_sol.Programs.RiskPolicy.{RiskPolicy, init_handle, update_handle}
use risk_claw_sol.Client.{World, policy_outcome, set_encrypted_policy, init_policy, update_policy}
use risk_claw_sol.Client.Policy.{set_encrypted_policy_submitted}
use risk_claw_sol.Devnet.{
  Deployment, Devnet, landed, address, write_account, policy_address, process,
}
use risk_claw_sol.Session.{send_landed, Session, up, session_host}

-- The client's ids are those of the deployment, and the vault has an address of its own.
pub record IsSetUp (deployment : Deployment) (ids : Ids) (vault : PublicKey) (w : World Session)
    : Type 0 where
  pub found : PublicKey × ℕ
  pub has_program : w.client.risk_policy ≡ true
  pub same_program : ids.risk_policy_program_id ≡ some deployment.risk_policy_program
  pub located : policy_address deployment vault ≡ landed found
  pub connected : w.env.link ≡ up
  pub no_other : w.env.chain.last_rebalanced found.0 ≡ none
  pub own_address :
      (p : RiskPolicy)
      → w.env.chain.policies found.0 ≡ some p
      → (p.owning_multisig_vault ≡ vault) × (p.bump ≡ found.1)

-- What the vault's account holds after the call.
abbrev pub Holds : Deployment → PublicKey → Uint8Array → Devnet → Type 0
Holds deployment vault ciphertext d =
    (found : PublicKey × ℕ) × (p : RiskPolicy) × (policy_address deployment vault ≡ landed found)
    × (d.policies found.0 ≡ some p)
    × (p.owning_multisig_vault ≡ vault)
    × (p.ciphertext_ref ≡ ciphertext)

-- What submitting a policy leaves as it was.
pub record IsStoring (w w' : World Session) : Type 0 where
  pub same_client : w'.client ≡ w.client
  pub same_link : w'.env.link ≡ w.env.link
  pub same_clock : w'.env.chain.unix_timestamp ≡ w.env.chain.unix_timestamp
  pub same_accounts : w'.env.chain.last_rebalanced ≡ w.env.chain.last_rebalanced
  pub same_events : w'.env.chain.events ≡ w.env.chain.events

pub find_address :
    (deployment : Deployment) (ids : Ids) (vault : PublicKey) (found : PublicKey × ℕ)
    → ids.risk_policy_program_id ≡ some deployment.risk_policy_program
    → policy_address deployment vault ≡ landed found
    → derive_risk_policy_pda deployment.web3 ids vault ≡ ok found
find_address deployment ids vault found same located = rw same (
    find_from
      (deployment.web3.find_program_address (literal risk_policy_seed ∷ key vault ∷ [])
        deployment.risk_policy_program)
      found located)
  where
    find_from :
        (o : Outcome (PublicKey × ℕ)) (found : PublicKey × ℕ)
        → address o ≡ landed found
        → o ≡ ok found
    find_from (ok a) found h = cc
    find_from (throws t) found h = cc

module _ (deployment : Deployment) where
  process_init :
      (wallet : PublicKey) (ciphertext arcium : List ℕ) (d : Devnet) (found : PublicKey × ℕ)
      → policy_address deployment wallet ≡ landed found
      → d.policies found.0 ≡ none
      → process deployment wallet (init_policy ciphertext arcium wallet) d
        ≡ landed (record d {
          policies =
              write_account d.policies found.0
                (init_handle wallet ciphertext arcium d.unix_timestamp found.1);
          count = suc d.count;
        })
  unfolding process
  process_init wallet ciphertext arcium d found located free =
      ground (arith, located, free, ==_refl wallet)

  process_update :
      (wallet : PublicKey) (ciphertext arcium : List ℕ) (d : Devnet) (found : PublicKey × ℕ)
      (p : RiskPolicy)
      → policy_address deployment wallet ≡ landed found
      → d.policies found.0 ≡ some p
      → p.owning_multisig_vault ≡ wallet
      → p.bump ≡ found.1
      → process deployment wallet (update_policy ciphertext arcium wallet) d
        ≡ landed (record d {
          policies =
              write_account d.policies found.0 (update_handle p ciphertext arcium d.unix_timestamp);
          count = suc d.count;
        })
  unfolding process
  process_update wallet ciphertext arcium d found p located stored owned bump =
      ground (arith, located, stored, ==_refl wallet, ==_refl found.1)

module _ (deployment : Deployment) (ids : Ids) (wallet : PublicKey) where
  -- What the call returns and leaves, for a cluster that ends in `d`.
  abbrev pub Stores : Uint8Array → World Session → Type 0
  Stores ciphertext w =
      (w' : World Session) × (set_encrypted_policy (session_host deployment wallet) deployment.web3
          ids wallet ciphertext w
        ≡ (ok (deployment.signature w.env.chain.count), w'))
      × Holds deployment wallet ciphertext w'.env.chain
      × IsStoring w w'

  policy_created :
      (ciphertext : Uint8Array) (w : World Session) (s : IsSetUp deployment ids wallet w)
      → length ciphertext ≡ 64
      → w.env.chain.policies (s.found.0) ≡ none
      → Stores ciphertext w
  unfolding init_handle
  policy_created ciphertext w s len free =
      let d : Devnet = w.env.chain in
      let p : RiskPolicy =
        init_handle wallet ciphertext (new_uint8_array 32) d.unix_timestamp s.found.1 in
      let d' : Devnet = record d {
        policies = write_account d.policies s.found.0 p;
        count = suc d.count;
      } in
      (
        record w { env = record (w.env) { chain = d' } },
        set_encrypted_policy_submitted (session_host deployment wallet) deployment.web3 ids wallet
              deployment.risk_policy_program ciphertext w s.found false w.env s.has_program
              s.same_program len
              (find_address deployment ids wallet s.found s.same_program s.located)
              (ground (arith, free, s.connected, s.no_other))
            ∙ ap (λ r. (policy_outcome false r.0, record w { env = r.1 }))
                (send_landed deployment wallet (init_policy ciphertext (new_uint8_array 32) wallet)
                  w.env d' s.connected
                  (process_init deployment wallet ciphertext (new_uint8_array 32) d s.found
                    s.located free)),
        (s.found, p, s.located, rw (==_refl s.found.0) refl, refl, refl),
        record {
          same_client = refl;
          same_link = refl;
          same_clock = refl;
          same_accounts = refl;
          same_events = refl;
        },
      )

  policy_replaced :
      (ciphertext : Uint8Array) (w : World Session) (s : IsSetUp deployment ids wallet w)
      (q : RiskPolicy)
      → length ciphertext ≡ 64
      → w.env.chain.policies (s.found.0) ≡ some q
      → Stores ciphertext w
  unfolding update_handle
  policy_replaced ciphertext w s q len stored =
      let d : Devnet = w.env.chain in
      let (owned, bump) = s.own_address q stored in
      let p : RiskPolicy = update_handle q ciphertext (new_uint8_array 32) d.unix_timestamp in
      let d' : Devnet = record d {
        policies = write_account d.policies s.found.0 p;
        count = suc d.count;
      } in
      (
        record w { env = record (w.env) { chain = d' } },
        set_encrypted_policy_submitted (session_host deployment wallet) deployment.web3 ids wallet
              deployment.risk_policy_program ciphertext w s.found true w.env s.has_program
              s.same_program len
              (find_address deployment ids wallet s.found s.same_program s.located)
              (ground (arith, stored, s.connected))
            ∙ ap (λ r. (policy_outcome true r.0, record w { env = r.1 }))
                (send_landed deployment wallet
                  (update_policy ciphertext (new_uint8_array 32) wallet) w.env d' s.connected
                  (process_update deployment wallet ciphertext (new_uint8_array 32) d s.found q
                    s.located stored owned bump)),
        (s.found, p, s.located, rw (==_refl s.found.0) refl, owned, refl),
        record {
          same_client = refl;
          same_link = refl;
          same_clock = refl;
          same_accounts = refl;
          same_events = refl;
        },
      )

  -- With 64 bytes, the call succeeds, the vault's account holds them, and nothing else has changed.
  pub policy_stored :
      (ciphertext : Uint8Array) (w : World Session)
      → IsSetUp deployment ids wallet w
      → length ciphertext ≡ 64
      → Stores ciphertext w
  policy_stored ciphertext w s len = elim (Option-cases (w.env.chain.policies (s.found.0))) [
    | inl free ↦ policy_created ciphertext w s len free
    | inr (q, there) ↦ policy_replaced ciphertext w s q len there
  ]

  -- On a cluster that is set up for the vault, whether or not its account exists yet, submitting an
  -- encrypted threshold succeeds; the vault's account then holds 64 bytes that read back as the
  -- threshold modulo 2^64.
  pub threshold_stored :
      (t : ℤ) (k : Option PublicKey) (w : World Session)
      → IsSetUp deployment ids wallet w
      → (w' : World Session) × (p : RiskPolicy) × (a : PublicKey × ℕ) × (set_encrypted_policy
            (session_host deployment wallet)
            deployment.web3
            ids
            wallet
            (encrypt_threshold t k)
            w
          ≡ (ok (deployment.signature w.env.chain.count), w'))
        × (policy_address deployment wallet ≡ landed a)
        × (w'.env.chain.policies a.0 ≡ some p)
        × (p.owning_multisig_vault ≡ wallet)
        × (test_decrypt_placeholder p.ciphertext_ref ≡ ok (to_biguint64 t))
  threshold_stored t k w s =
      let len = (encrypt_threshold_bytes t k).0 in
      let (w', sent, (a, p, located, stored, owned, kept), _) =
        policy_stored (encrypt_threshold t k) w s len in
      (
        w',
        p,
        a,
        sent,
        located,
        stored,
        owned,
        ap test_decrypt_placeholder kept ∙ test_decrypt_placeholder-encrypt_threshold t k,
      )
