-- ===== src/App/Binding.antt =====
-- app/lib/onchain.ts and app/lib/squads.ts: the client that a page is handed, and the multisig of the
-- configuration. `useMemo` keeps the last value with its dependencies, which React compares by
-- identity; a wallet is identified by its key, a connection by a number.
pub mod Renders
use risk_claw_sol.Prelude.{
  ℕ, ◌≡◌, refl, ◌≢◌, Bool, true, false, ◌&&◌, [], Option, none, some, ◌==◌, if◌then◌else◌, arith,
  Bool-cases, inl, inr, ==_iff, ==_refl,
}
use risk_claw_sol.Types.{PublicKey}
use risk_claw_sol.Errors.{Outcome}
use risk_claw_sol.Config.{Config}
use risk_claw_sol.Ids.{Web3, optional_key}
use risk_claw_sol.Client.{RealClient, create_real_client, is_some, or_default}

-- `getDevMultisig`
abbrev pub get_dev_multisig : Web3 → Config → Outcome (Option PublicKey)
get_dev_multisig web3 config = optional_key web3 config.dev_multisig

-- `isMultisigConfigured`
abbrev pub is_multisig_configured : Config → Bool
is_multisig_configured config = is_some config.dev_multisig

-- A client and the wallet that signs for it.
pub record BoundClient : Type 0 where
  pub signer : PublicKey
  pub client : RealClient

-- What the hook's `useMemo` has kept.
pub record Memo : Type 0 where
  pub wallet : Option PublicKey
  pub connection : ℕ
  pub value : Option BoundClient

abbrev pub new_client : Option PublicKey → Option BoundClient
new_client none = none
new_client (some key) = some (record {
  signer = key;
  client = create_real_client (record {
    read_throttle_ms = none;
    write_throttle_ms = none;
    risk_policy_idl = true;
    swig_delegation_idl = true;
  });
})

abbrev pub same_wallet : Option PublicKey → Option PublicKey → Bool
same_wallet none none = true
same_wallet none (some b) = false
same_wallet (some a) none = false
same_wallet (some a) (some b) = a == b

-- `useOnchainClient` in a render with this wallet and connection, after what the last one kept.
unfoldable pub use_onchain_client : Option PublicKey → ℕ → Option Memo → Memo
use_onchain_client wallet connection none = record {
  wallet = wallet;
  connection = connection;
  value = new_client wallet;
}
use_onchain_client wallet connection (some memo) =
    if same_wallet memo.wallet wallet && (memo.connection == connection)
    then memo
    else record { wallet = wallet; connection = connection; value = new_client wallet }
