-- ===== src/Client/Remote.antt =====
-- What `RealClient` calls and does not implement: the clock, the RPC connection and Anchor's
-- `.rpc()`, over a type of environments. A signed transaction reaches the cluster through `send`.
use risk_claw_sol.Prelude.{ℕ, Bool, String}
use risk_claw_sol.Types.{PublicKey, TxSig}
use risk_claw_sol.Errors.{Outcome}
use risk_claw_sol.Encrypt.{Uint8Array}
use risk_claw_sol.Programs.SwigDelegation.{RebalanceAction}

-- A call of a program's method, with its arguments and the accounts that the client names.
pub data Instruction : Type 0 where
  init_policy update_policy :
      (ciphertext_ref arcium_handle : Uint8Array) (owning_multisig_vault : PublicKey) → Instruction
  execute_rebalance :
      (policy : PublicKey) (action : RebalanceAction)
      (size_bps max_slippage_bps expected_out min_out : ℕ)
      → Instruction

-- How `.rpc()` ends: with a signature, or with an error whose text is `String(err)`.
pub data Reply : Type 0 where
  confirmed : TxSig → Reply
  rejected : String → Reply

pub record Host (E : Type 0) : Type 0 where
  -- `Date.now()`
  pub date_now : E → ℕ
  -- `connection.getAccountInfo(key)`, as whether it is not null; it may throw.
  pub get_account_info : PublicKey → E → Outcome Bool × E
  -- `.rpc()`, signed by the provider's wallet.
  pub send : Instruction → E → Reply × E
