-- ===== src/Verify.antt =====
-- scripts/verify-onchain.ts: the read-only checks of the state on chain. What the connection, Anchor's
-- decoder and mpl-core answer is a `View`; a failed check, which ends the process, is a throw.
pub mod Checks
pub mod Owners
use risk_claw_sol.Prelude.{
  ℕ, Bool, true, false, not, List, [], ◌∷◌, Option, none, some, String, ◌==◌, ◌is◌, if◌then◌else◌,
  lookup, take, drop,
}
use risk_claw_sol.Types.{PublicKey}
use risk_claw_sol.Errors.{Outcome, ok, throws, error, ◌>>=◌}
use risk_claw_sol.Config.{AgentEntry}
use risk_claw_sol.Encrypt.{Uint8Array, stub_tag}
use risk_claw_sol.Ids.{Web3, Ids, derive_risk_policy_pda}
use risk_claw_sol.Programs.RiskPolicy.{RiskPolicy}
use risk_claw_sol.Registration.{CoreAsset}
use risk_claw_sol.Smoke.{same_bytes}

pub record AccountInfo : Type 0 where
  pub executable : Bool
  pub owner : PublicKey

pub record View : Type 0 where
  pub get_account_info : PublicKey → Outcome (Option AccountInfo)
  -- `program.account.riskPolicy.fetch`
  pub fetch_policy : PublicKey → Outcome RiskPolicy
  pub fetch_asset : String → Outcome CoreAsset
  -- the public key of ~/.config/solana/id.json, if the file is there
  pub wallet : Option PublicKey

abbrev pub fail : {A : Type 0} → String → Outcome A
fail reason = throws (error reason)

infixl 5 ◌>>◌
abbrev pub ◌>>◌ : {B : Type 0} → Outcome (Unit {0}) → Outcome B → Outcome B
check >> next = check >>= λ _. next

abbrev pub required : {A : Type 0} → String → Option A → Outcome A
required reason none = fail reason
required reason (some a) = ok a

abbrev pub expect : Bool → String → Outcome (Unit {0})
expect true reason = ok tt
expect false reason = fail reason

-- What the script prints beside its marks.
pub record Report : Type 0 where
  pub tag_checked : Bool
  pub read_owner : Bool
  pub compute_owner : Bool
  pub execute_owner : Bool

module _ (view : View) where
  -- 1) a program is there and executable
  unfoldable pub check_program : PublicKey → Outcome (Unit {0})
  check_program pk = do
    found ← view.get_account_info pk
    info ← required "program not found on devnet" found
    expect info.executable "program is not executable"

  -- 2) the multisig is there, and owned by Squads
  unfoldable pub check_multisig : PublicKey → PublicKey → Outcome (Unit {0})
  check_multisig squads multisig = do
    found ← view.get_account_info multisig
    info ← required "multisig not on devnet" found
    expect (info.owner == squads) "multisig owner mismatch"

  -- 4) the tag of a stored policy
  unfoldable pub check_tag : RiskPolicy → Outcome (Unit {0})
  check_tag policy =
      expect (same_bytes (take 16 (drop 48 policy.ciphertext_ref)) stub_tag) "tag mismatch"

  -- 3) and 4): skipped without a wallet, and without an account; true if the tag was checked
  unfoldable pub check_policy : Web3 → Ids → Outcome Bool
  unfolding check_tag
  check_policy web3 ids = elim view.wallet [
    | none ↦ ok false
    | some wallet ↦ do
      pda ← derive_risk_policy_pda web3 ids wallet
      found ← view.get_account_info pda.0
      elim found [
        | none ↦ ok false
        | some info ↦ do policy ← view.fetch_policy pda.0; check_tag policy; ok true
      ]
  ]

  abbrev fetched_or_fail : Outcome CoreAsset → Outcome CoreAsset
  fetched_or_fail (throws t) = fail "not fetchable"
  fetched_or_fail (ok asset) = ok asset

  abbrev has_zone : String → Option String → Bool
  has_zone zone none = false
  has_zone zone (some value) = value is zone

  -- 5) one agent's asset; true if its owner is the registry's
  unfoldable pub check_agent : List (String × AgentEntry) → String → Outcome Bool
  check_agent agents zone = do
    entry ← required "DEVNET_AGENTS entry missing in config" (lookup zone agents)
    asset ← fetched_or_fail (view.fetch_asset entry.mint)
    expect (has_zone zone (lookup "zone" asset.attributes)) "zone attribute mismatch"
    ok (asset.owner is entry.pubkey)

  -- `main`
  unfoldable pub verify_onchain : Web3 → Ids → List (String × AgentEntry) → Outcome Report
  unfolding check_program check_multisig check_policy check_agent
  verify_onchain web3 ids agents = do
    risk_policy ← required "RISK_POLICY_PROGRAM_ID null in config" ids.risk_policy_program_id
    swig ← required "SWIG_DELEGATION_PROGRAM_ID null in config" ids.swig_delegation_program_id
    check_program risk_policy
    check_program swig
    multisig ← required "DEV_MULTISIG null in config" ids.dev_multisig
    check_multisig ids.squads_v4_program_id multisig
    tag_checked ← check_policy web3 ids
    read_owner ← check_agent agents "read"
    compute_owner ← check_agent agents "compute"
    execute_owner ← check_agent agents "execute"
    ok (record {
      tag_checked = tag_checked;
      read_owner = read_owner;
      compute_owner = compute_owner;
      execute_owner = execute_owner;
    })
