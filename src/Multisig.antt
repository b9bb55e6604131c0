-- ===== src/Multisig.antt =====
-- scripts/create-multisig.ts: the creation of the 1-of-1 multisig. Squads' library, the generator of
-- keypairs and the connection are functions of the cluster's state; a keypair is its public key, and
-- what the script prints at its end is its result. A balance is in lamports.
pub mod Runs
use risk_claw_sol.Prelude.{ℕ, Bool, List, [], ◌∷◌, Option, none, some, ltb, if◌then◌else◌}
use risk_claw_sol.Types.{PublicKey, TxSig}
use risk_claw_sol.Errors.{Outcome, ok, throws, error}
use risk_claw_sol.Seed.{WalletFile}
use risk_claw_sol.Seed.Process.{Run, lift, ◌>>=◌, ◌>>◌}

pub data Permissions : Type 0 where
  -- `Permissions.all()`
  all : Permissions

-- The arguments of `multisigCreateV2`.
pub record MultisigCreate : Type 0 where
  pub create_key : PublicKey
  pub creator : PublicKey
  pub multisig_pda : PublicKey
  pub config_authority : Option PublicKey
  pub time_lock : ℕ
  pub members : List (PublicKey × Permissions)
  pub threshold : ℕ
  pub rent_collector : Option PublicKey
  pub treasury : PublicKey

pub record Squads (E : Type 0) : Type 0 where
  pub get_balance : PublicKey → E → Outcome ℕ
  -- `Keypair.generate()`
  pub generate : E → PublicKey × E
  pub get_multisig_pda : PublicKey → Outcome PublicKey
  -- the treasury of the program's configuration account
  pub config_treasury : E → Outcome PublicKey
  pub multisig_create : MultisigCreate → E → Outcome TxSig × E

pub record Created : Type 0 where
  pub multisig_pda : PublicKey
  pub sig : TxSig

abbrev pub created_by : PublicKey → PublicKey → PublicKey → PublicKey → MultisigCreate
created_by creator create_key pda treasury = record {
  create_key = create_key;
  creator = creator;
  multisig_pda = pda;
  config_authority = none;
  time_lock = 0;
  members = (creator, Permissions.all) ∷ [];
  threshold = 1;
  rent_collector = none;
  treasury = treasury;
}

-- 0.1 SOL
abbrev pub min_balance : ℕ
min_balance = 100000000

module _ {E : Type 0} (squads : Squads E) where
  abbrev generated : Run E PublicKey
  generated e = let (key, e') = squads.generate e in (ok key, e')

  abbrev asked : {A : Type 0} → (E → Outcome A) → Run E A
  asked f e = (f e, e)

  -- From the generation of the key on.
  unfoldable pub create : PublicKey → Run E Created
  create creator = do
    create_key ← generated
    pda ← lift (squads.get_multisig_pda create_key)
    treasury ← asked squads.config_treasury
    sig ← squads.multisig_create (created_by creator create_key pda treasury)
    lift (ok (record { multisig_pda = pda; sig = sig }))

  abbrev enough : ℕ → Run E (Unit {0})
  enough balance = lift (
      if ltb balance min_balance
      then throws (error "Creator needs >= 0.1 devnet SOL. Run: solana airdrop 1 --url devnet")
      else ok tt)

  -- `main`
  unfoldable pub create_multisig : WalletFile → Run E Created
  create_multisig none = lift (throws (error "No Solana keypair. Run 'solana-keygen new' first."))
  create_multisig (some file) = do
    creator ← lift file
    balance ← asked (squads.get_balance creator)
    enough balance
    create creator
