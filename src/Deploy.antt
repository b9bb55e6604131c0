-- ===== src/Deploy.antt =====
-- scripts/deploy-devnet.ts: the deployment, over a machine that runs shell commands and holds the files.
-- The configuration is the two lines that the patterns replace, each of which may not be there.
pub mod Runs
pub mod Commands
pub mod Stages
use Prim.Native.String.{◌++◌ as joined}
use risk_claw_sol.Prelude.{
  ℕ, ◌+◌, Bool, true, false, not, ◌&&◌, List, [], ◌∷◌, Option, none, some, String, ltb, ◌is◌,
  if◌then◌else◌,
}
use risk_claw_sol.Errors.{Outcome, ok, throws, Thrown, error}

-- `export const RISK_POLICY_PROGRAM_ID` and `export const SWIG_DELEGATION_PROGRAM_ID`.
pub record ConfigLines : Type 0 where
  pub risk_policy : Option (Option String)
  pub swig_delegation : Option (Option String)

pub record Machine : Type 0 where
  pub config : ConfigLines
  -- the commands that were run, the latest first
  pub ran : List String
  pub writes : ℕ

-- What the machine answers: whether a command fails, whether a keypair file is there and what
-- `solana-keygen pubkey` prints for it, whether the wallet's file is there, and the balance in lamports.
-- A keypair file is named from the programs' target/deploy.
pub record Outside : Type 0 where
  pub exec : String → Outcome (Unit {0})
  pub has_keypair : String → Bool
  pub keypair_pubkey : String → Outcome String
  pub has_wallet : Bool
  pub get_balance : Outcome ℕ

pub record ProgramIds : Type 0 where
  pub risk_policy : String
  pub swig_delegation : String

abbrev pub Deploying : Type 0 → Type 0
Deploying A = Machine → Outcome A × Machine

infixl 5 ◌>>=◌ ◌>>◌
abbrev pub ◌>>=◌ : {A B : Type 0} → Deploying A → (A → Deploying B) → Deploying B
◌>>=◌ act next m =
    let (result, m') = act m in elim result [ ok a ↦ next a m' | throws t ↦ (throws t, m') ]

abbrev pub ◌>>◌ : {A B : Type 0} → Deploying A → Deploying B → Deploying B
act >> next = act >>= λ _. next

abbrev lifted : {A : Type 0} → Outcome A → Deploying A
lifted o m = (o, m)

abbrev throw_when : Bool → Thrown → Deploying (Unit {0})
throw_when b t m = (if b then throws t else ok tt, m)

-- A value of the configuration that is there and not empty.
abbrev pub is_set : Option String → Bool
is_set none = false
is_set (some s) = not (s is "")

abbrev replaced : Option (Option String) → String → Option (Option String)
replaced none id = none
replaced (some old) id = some (some id)

-- `patchConfig`: a pattern that matches nothing leaves the text as it is.
abbrev pub patched : ProgramIds → ConfigLines → ConfigLines
patched ids config = record {
  risk_policy = replaced config.risk_policy ids.risk_policy;
  swig_delegation = replaced config.swig_delegation ids.swig_delegation;
}

abbrev pub pubkey_command : String → String
pubkey_command file = joined "solana-keygen pubkey " file

module _ (outside : Outside) (dry_run : Bool) where
  -- `sh`
  unfoldable pub sh : String → Deploying (Unit {0})
  sh command m =
      if dry_run then (ok tt, m) else (outside.exec command, record m { ran = command ∷ m.ran })

  unfoldable pub patch_config : ProgramIds → Deploying (Unit {0})
  patch_config ids m =
      if dry_run
      then (ok tt, m)
      else (ok tt, record m { config = patched ids m.config; writes = m.writes + 1 })

  -- `readKeypairPubkey`
  unfoldable pub read_keypair_pubkey : String → Deploying String
  read_keypair_pubkey file m =
      if outside.has_keypair file
      then (outside.keypair_pubkey file, record m { ran = pubkey_command file ∷ m.ran })
      else (throws (error "expected keypair; did anchor build/keys sync run?"), m)

  unfoldable pub key_of : String → String → Deploying String
  unfolding read_keypair_pubkey
  key_of pretend file m = if dry_run then (ok pretend, m) else read_keypair_pubkey file m

  -- From the wallet's check on.
  unfoldable pub deploy : Deploying (Unit {0})
  unfolding sh patch_config key_of
  deploy = do
    throw_when (not outside.has_wallet) (error "No Solana keypair. Run: solana-keygen new")
    balance ← lifted outside.get_balance
    throw_when (not dry_run && ltb balance 2500000000)
        (error "wallet needs >= 2.5 devnet SOL for two program deploys")
    sh "solana config set --url https://api.devnet.solana.com"
    sh "anchor build"
    sh "anchor keys sync"
    sh "anchor build"
    sh "anchor deploy --provider.cluster devnet --no-idl"
    risk_policy ← key_of "<DRY_RUN_RISK_POLICY_ID>" "risk_policy-keypair.json"
    swig ← key_of "<DRY_RUN_SWIG_ID>" "swig_delegation-keypair.json"
    patch_config (record { risk_policy = risk_policy; swig_delegation = swig })

  -- `main`, for the ids that the module has loaded.
  unfoldable pub deploy_devnet : Option String → Option String → Deploying (Unit {0})
  unfolding deploy
  deploy_devnet risk_policy swig =
      if is_set risk_policy && is_set swig then (λ m. (ok tt, m)) else deploy
