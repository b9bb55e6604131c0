-- ===== src/Devnet.antt =====
-- The cluster that runs the two programs: accounts by address, the clock of the chain, and the log of
-- events. A transaction that fails leaves no trace, as on Solana. Anchor's account constraints
-- (`init`, `seeds`, `bump`, `has_one`, `Signer`) are written out; the texts of errors and the
-- signatures are parameters.
pub mod Execution
pub mod RateLimit
pub mod Ownership
pub mod WellFormed
use risk_claw_sol.Prelude.{
  ℕ, ◌+◌, suc, ◌≡◌, refl, ◌⊎◌, inl, inr, Bool, true, false, not, ◌&&◌, List, [], ◌∷◌, Option, none,
  some, String, ◌==◌, if◌then◌else◌,
}
use risk_claw_sol.Types.{PublicKey, TxSig}
use risk_claw_sol.Errors
use risk_claw_sol.Errors.{Outcome}
use risk_claw_sol.Ids.{Web3, literal, key, risk_policy_seed, last_rebalanced_seed}
use risk_claw_sol.Client.{
  Host, Instruction, init_policy, update_policy, execute_rebalance, Reply, confirmed, rejected,
}
use risk_claw_sol.Programs.RiskPolicy.{RiskPolicy, init_handle, update_handle}
use risk_claw_sol.Programs.SwigDelegation
use risk_claw_sol.Programs.SwigDelegation.{
  LastRebalanced, RebalanceExecutedEvent, ExecuteRebalance, SwigDelegationError, handle,
  init_if_needed,
}

-- Why a transaction fails: the program's own error, one of Anchor's constraints, or no address.
pub data ProgramError : Type 0 where
  swig : SwigDelegationError → ProgramError
  account_in_use account_not_initialized constraint_seeds constraint_has_one : ProgramError
  missing_signature no_address : ProgramError

pub data TxResult (A : Type 0) : Type 0 where
  landed : A → TxResult A
  failed : ProgramError → TxResult A

pub TxResult-cases :
    {A : Type 0} (r : TxResult A)
    → ((e : ProgramError) × (r ≡ failed e)) ⊎ ((a : A) × (r ≡ landed a))
TxResult-cases (landed a) = inr (a, refl)
TxResult-cases (failed e) = inl (e, refl)

infixl 5 ◌>>=◌ ◌>>◌
abbrev pub ◌>>=◌ : {A B : Type 0} → TxResult A → (A → TxResult B) → TxResult B
landed a >>= f = f a
failed e >>= f = failed e

abbrev pub ◌>>◌ : {B : Type 0} → TxResult Unit → TxResult B → TxResult B
m >> k = m >>= λ _. k

abbrev pub require : Bool → ProgramError → TxResult Unit
require true e = landed tt
require false e = failed e

-- Accounts of one kind, by address.
abbrev pub Accounts : Type 0 → Type 0
Accounts A = PublicKey → Option A

abbrev pub write_account : {A : Type 0} → Accounts A → PublicKey → A → Accounts A
write_account m k a = λ j. if j == k then some a else m j

abbrev pub existing : {A : Type 0} → Option A → TxResult A
existing none = failed account_not_initialized
existing (some a) = landed a

pub record Devnet : Type 0 where
  pub unix_timestamp : ℕ
  pub policies : Accounts RiskPolicy
  pub last_rebalanced : Accounts LastRebalanced
  -- the latest first
  pub events : List RebalanceExecutedEvent
  -- how many transactions have landed
  pub count : ℕ

-- The addresses of the deployed programs (`declare_id!`), and what the libraries answer.
pub record Deployment : Type 0 where
  pub web3 : Web3
  pub risk_policy_program : PublicKey
  pub swig_delegation_program : PublicKey
  pub signature : ℕ → TxSig
  pub error_text : ProgramError → String

abbrev pub address : Outcome (PublicKey × ℕ) → TxResult (PublicKey × ℕ)
address (Errors.ok found) = landed found
address (Errors.throws _) = failed no_address

abbrev pub swig_result : {A : Type 0} → SwigDelegation.Result A → TxResult A
swig_result (SwigDelegation.ok a) = landed a
swig_result (SwigDelegation.err e) = failed (swig e)

abbrev is_none : {A : Type 0} → Option A → Bool
is_none none = true
is_none (some _) = false

-- What happens on the chain over time, from any wallets.
pub data Activity : Type 0 where
  transaction : PublicKey → Instruction → Activity
  seconds : ℕ → Activity

abbrev pub after : TxResult Devnet → Devnet → Devnet
after (landed d') d = d'
after (failed e) d = d

module _ (deployment : Deployment) where
  open deployment use {web3, risk_policy_program, swig_delegation_program}

  -- The address and bump that `seeds = [RiskPolicy::SEED, vault]` name.
  abbrev pub policy_address : PublicKey → TxResult (PublicKey × ℕ)
  policy_address vault =
      address
        (web3.find_program_address (literal risk_policy_seed ∷ key vault ∷ []) risk_policy_program)

  abbrev pub last_rebalanced_address : PublicKey → TxResult (PublicKey × ℕ)
  last_rebalanced_address policy = address (
      web3.find_program_address (literal last_rebalanced_seed ∷ key policy ∷ [])
        swig_delegation_program)

  -- One transaction with one instruction, signed by the wallet alone.
  unfoldable pub process : PublicKey → Instruction → Devnet → TxResult Devnet
  process wallet (init_policy ciphertext arcium vault) d = do
    require (vault == wallet) missing_signature
    found ← policy_address vault
    require (is_none (d.policies found.0)) account_in_use
    let p = init_handle vault ciphertext arcium d.unix_timestamp found.1
    landed (record d { policies = write_account d.policies found.0 p; count = suc d.count })
  process wallet (update_policy ciphertext arcium vault) d = do
    require (vault == wallet) missing_signature
    found ← policy_address vault
    p ← existing (d.policies found.0)
    require (p.bump == found.1) constraint_seeds
    require (p.owning_multisig_vault == vault) constraint_has_one
    let p' = update_handle p ciphertext arcium d.unix_timestamp
    landed (record d { policies = write_account d.policies found.0 p'; count = suc d.count })
  process wallet (execute_rebalance policy action size slippage expected min) d = do
    found ← last_rebalanced_address policy
    done ← swig_result (
        handle
          (record {
            policy = policy;
            guardian_authority = wallet;
            action = action;
            size_bps = size;
            max_slippage_bps = slippage;
            expected_out = expected;
            min_out = min;
          })
          d.unix_timestamp found.1 (init_if_needed (d.last_rebalanced found.0)))
    landed (record d {
      last_rebalanced = write_account d.last_rebalanced found.0 done.0;
      events = done.1 ∷ d.events;
      count = suc d.count;
    })

  unfoldable pub run : List Activity → Devnet → Devnet
  unfolding process
  run [] d = d
  run (transaction wallet instruction ∷ rest) d = run rest (after (process wallet instruction d) d)
  run (seconds n ∷ rest) d = run rest (record d { unix_timestamp = d.unix_timestamp + n })
