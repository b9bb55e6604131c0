-- ===== src/Client/Policy.antt =====
-- `setEncryptedPolicy` against any host: what it sends, and when it sends nothing.
use risk_claw_sol.Prelude.{ℕ, ◌≡◌, ◌≢◌, ◌⊎◌, Bool, true, false, none, some, arith, length}
use risk_claw_sol.Types.{PublicKey, TxSig}
use risk_claw_sol.Errors.{Outcome, ok, throws, Thrown, onchain_rejection}
use risk_claw_sol.Encrypt.{Uint8Array, new_uint8_array}
use risk_claw_sol.Ids.{Web3, Ids, derive_risk_policy_pda}
use risk_claw_sol.Client.{
  Host, World, Reply, confirmed, rejected, init_policy, update_policy, set_encrypted_policy,
  policy_instruction, policy_outcome, ciphertext_size_error,
}

module _ {E : Type 0} (host : Host E) (web3 : Web3) (ids : Ids) where
  -- A call that passes its checks is one transaction, by whether the vault's account is there.
  pub set_encrypted_policy_submitted :
      (vault program : PublicKey) (ciphertext : Uint8Array) (w : World E) (found : PublicKey × ℕ)
      (exists : Bool) (env : E)
      → w.client.risk_policy ≡ true
      → ids.risk_policy_program_id ≡ some program
      → length ciphertext ≡ 64
      → derive_risk_policy_pda web3 ids vault ≡ ok found
      → host.get_account_info found.0 w.env ≡ (ok exists, env)
      → set_encrypted_policy host web3 ids vault ciphertext w ≡ (
        policy_outcome exists (host.send (policy_instruction exists ciphertext vault) env).0,
        record w { env = (host.send (policy_instruction exists ciphertext vault) env).1 },
      )
  unfolding set_encrypted_policy
  set_encrypted_policy_submitted vault program ciphertext w found exists env a b c d e =
      ground (arith, b, d, e)

  -- A ciphertext of another length is refused before anything is asked of the chain.
  pub set_encrypted_policy_wrong_size :
      (vault program : PublicKey) (ciphertext : Uint8Array) (w : World E)
      → w.client.risk_policy ≡ true
      → ids.risk_policy_program_id ≡ some program
      → length ciphertext ≢ 64
      → set_encrypted_policy host web3 ids vault ciphertext w ≡ (throws ciphertext_size_error, w)
  unfolding set_encrypted_policy
  set_encrypted_policy_wrong_size vault program ciphertext w a b c = ground (arith, b)

module _ {E : Type 0} (host : Host E) (web3 : Web3) (ids : Ids) where
  -- Why a call ends before it asks the chain anything.
  abbrev pub IsRefused : PublicKey → Uint8Array → World E → Type 0
  IsRefused vault ciphertext w =
      (w.client.risk_policy ≡ false)
      ⊎ (ids.risk_policy_program_id ≡ none)
      ⊎ (length ciphertext ≢ 64)
      ⊎ ((t : Thrown) × (derive_risk_policy_pda web3 ids vault ≡ throws t))

  -- How a call ends whose transaction got a reply and left an environment: with the signature that was
  -- confirmed, or with a rejection that carries the chain's error.
  abbrev pub Answered : World E → Reply × E → Outcome TxSig × World E → Type 0
  Answered w (confirmed sig, env) r = r ≡ (ok sig, record w { env = env })
  Answered w (rejected msg, env) r =
      (t : Thrown) × (t.class ≡ onchain_rejection)
      × (t.cause ≡ some msg)
      × (r ≡ (throws t, record w { env = env }))

  -- How a call may end.
  pub data PolicyEnds (vault : PublicKey) (ciphertext : Uint8Array) (w : World E)
      (r : Outcome TxSig × World E) : Type 0 where
    refused :
        (t : Thrown)
        → IsRefused vault ciphertext w
        → r ≡ (throws t, w)
        → PolicyEnds vault ciphertext w r
    unread :
        (pda : PublicKey × ℕ) (t : Thrown) (env : E)
        → derive_risk_policy_pda web3 ids vault ≡ ok pda
        → host.get_account_info pda.0 w.env ≡ (throws t, env)
        → r ≡ (throws t, record w { env = env })
        → PolicyEnds vault ciphertext w r
    updates :
        (pda : PublicKey × ℕ) (env : E)
        → derive_risk_policy_pda web3 ids vault ≡ ok pda
        → length ciphertext ≡ 64
        → host.get_account_info pda.0 w.env ≡ (ok true, env)
        → Answered w (host.send (update_policy ciphertext (new_uint8_array 32) vault) env) r
        → PolicyEnds vault ciphertext w r
    inits :
        (pda : PublicKey × ℕ) (env : E)
        → derive_risk_policy_pda web3 ids vault ≡ ok pda
        → length ciphertext ≡ 64
        → host.get_account_info pda.0 w.env ≡ (ok false, env)
        → Answered w (host.send (init_policy ciphertext (new_uint8_array 32) vault) env) r
        → PolicyEnds vault ciphertext w r
