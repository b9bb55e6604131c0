-- ===== src/Programs/RiskPolicy.antt =====
-- programs/programs/risk_policy/src: the account that holds an encrypted policy, its hash, and the
-- handlers of `init_policy` and `update_policy`.
pub mod Hash
use Prim.Native.Nat.{bit_xor}
use risk_claw_sol.Prelude.{ℕ, zero, suc, ◌+◌, ◌%◌, List, [], ◌∷◌, ◌++◌, replicate}
use risk_claw_sol.Types.{PublicKey}

pub record RiskPolicy : Type 0 where
  pub owning_multisig_vault : PublicKey
  pub ciphertext_ref : List ℕ
  pub arcium_handle : List ℕ
  pub policy_hash : List ℕ
  pub updated_at : ℕ
  pub last_check_at : ℕ
  pub bump : ℕ

-- `tag[i] ^= b`
unfoldable pub xor_at : List ℕ → ℕ → ℕ → List ℕ
xor_at [] i b = []
xor_at (t ∷ tag) zero b = bit_xor t b ∷ tag
xor_at (t ∷ tag) (suc i) b = t ∷ xor_at tag i b

-- The loop of `recompute_hash` from index `i`.
unfoldable pub fold_bytes : ℕ → List ℕ → List ℕ → List ℕ
unfolding xor_at
fold_bytes i [] tag = tag
fold_bytes i (b ∷ bytes) tag = fold_bytes (suc i) bytes (xor_at tag (i % 32) b)

unfoldable pub hash_of : List ℕ → List ℕ → List ℕ
unfolding fold_bytes
hash_of ciphertext_ref arcium_handle =
    fold_bytes 0 (ciphertext_ref ++ arcium_handle) (replicate 32 0)

-- `RiskPolicy::recompute_hash`
unfoldable pub recompute_hash : RiskPolicy → RiskPolicy
unfolding hash_of
recompute_hash p = record p { policy_hash = hash_of p.ciphertext_ref p.arcium_handle }

-- `init_policy::handle`, on the zeroed account that Anchor's `init` gives it.
unfoldable pub init_handle : PublicKey → List ℕ → List ℕ → ℕ → ℕ → RiskPolicy
unfolding recompute_hash
init_handle vault ciphertext_ref arcium_handle now bump = recompute_hash (record {
  owning_multisig_vault = vault;
  ciphertext_ref = ciphertext_ref;
  arcium_handle = arcium_handle;
  policy_hash = replicate 32 0;
  updated_at = now;
  last_check_at = 0;
  bump = bump;
})

-- `update_policy::handle`
unfoldable pub update_handle : RiskPolicy → List ℕ → List ℕ → ℕ → RiskPolicy
unfolding recompute_hash
update_handle p ciphertext_ref arcium_handle now =
    recompute_hash (record p {
      ciphertext_ref = ciphertext_ref;
      arcium_handle = arcium_handle;
      updated_at = now;
    })
