-- ===== src/Registration.antt =====
-- scripts/register-agents.ts: one Core asset for each zone, with its key file, its entry in the registry
-- file and the block in config/devnet.ts. Umi, mpl-core and the key generator are a `Umi`; keys and
-- addresses are their base58 texts. Files that do not parse are left out.
pub mod Core
pub mod Minting
pub mod Rounds
pub mod Again
use Prim.Native.String.{◌++◌}
use risk_claw_sol.Prelude.{
  ℕ, Bool, true, false, List, [], ◌∷◌, Option, none, some, String, ltb, ◌is◌, if◌then◌else◌, lookup,
  insert,
}
use risk_claw_sol.Errors.{Outcome, ok, throws, Thrown, error}
use risk_claw_sol.Config.{AgentEntry}

abbrev pub Registry : Type 0
Registry = List (String × AgentEntry)

pub record ZoneSpec : Type 0 where
  pub zone : String
  pub name : String
  pub file : String

-- `ZONES`
abbrev pub read_zone : ZoneSpec
read_zone = record { zone = "read"; name = "Observer"; file = "observer.json" }

abbrev pub compute_zone : ZoneSpec
compute_zone = record { zone = "compute"; name = "Analyst"; file = "analyst.json" }

abbrev pub execute_zone : ZoneSpec
execute_zone = record { zone = "execute"; name = "Guardian"; file = "guardian.json" }

-- The `DEVNET_AGENTS` block of the configuration: not there, there but not matched by the pattern, or
-- matched.
pub data AgentsBlock : Type 0 where
  absent malformed : AgentsBlock
  block : Registry → AgentsBlock

-- The files that the script reads and writes.
pub record Files : Type 0 where
  -- `.keys`, with the public key of each file
  pub keys : List (String × String)
  pub registry : Option Registry
  pub agents : AgentsBlock

pub record CoreAsset : Type 0 where
  pub owner : String
  pub name : String
  pub uri : String
  pub attributes : List (String × String)

pub record Umi (E : Type 0) : Type 0 where
  pub get_balance : E → Outcome ℕ × E
  -- `Keypair.generate` and `generateSigner`
  pub generate : E → String × E
  pub fetch_asset : String → E → Outcome CoreAsset × E
  -- `create(…).sendAndConfirm`
  pub create : String → CoreAsset → E → Outcome (Unit {0}) × E

pub record Office (E : Type 0) : Type 0 where
  pub files : Files
  pub env : E

abbrev pub Script : Type 0 → Type 0 → Type 0
Script E A = Office E → Outcome A × Office E

abbrev pub new_asset : ZoneSpec → String → CoreAsset
new_asset z owner = record {
  owner = owner;
  name = z.name;
  uri = "https://riskclaw.demo/agents/" ++ (z.zone ++ ".json");
  attributes = ("zone", z.zone) ∷ ("agent_pubkey", owner) ∷ ("version", "1") ∷ [];
}

-- `loadRegistry`
abbrev pub registry_of : Files → Registry
registry_of files = elim files.registry [ none ↦ [] | some r ↦ r ]

module _ {E : Type 0} where
  infixl 5 ◌>>=◌ ◌>>◌
  abbrev pub ◌>>=◌ : {A B : Type 0} → Script E A → (A → Script E B) → Script E B
  ◌>>=◌ act next o =
      let (result, o') = act o in elim result [ ok a ↦ next a o' | throws t ↦ (throws t, o') ]

  abbrev pub ◌>>◌ : {A B : Type 0} → Script E A → Script E B → Script E B
  act >> next = act >>= λ _. next

  abbrev pub done : {A : Type 0} → A → Script E A
  done a o = (ok a, o)

  abbrev pub stop_if : Bool → Thrown → Script E (Unit {0})
  stop_if b t o = (if b then throws t else ok tt, o)

  abbrev load_registry : Script E Registry
  load_registry o = (ok (registry_of o.files), o)

  -- `saveRegistry`
  abbrev save_registry : Registry → Script E (Unit {0})
  save_registry r o = (ok tt, record o { files = record (o.files) { registry = some r } })

  -- `patchConfig`: a block is replaced, and without one it is appended.
  unfoldable pub patch_config : Registry → Script E (Unit {0})
  patch_config r o = elim (o.files).agents [
    | malformed ↦ (throws (error "DEVNET_AGENTS line found but block regex didn't match"), o)
    | _ ↦ (ok tt, record o { files = record (o.files) { agents = block r } })
  ]

module _ {E : Type 0} (umi : Umi E) where
  abbrev balance : Script E ℕ
  balance o = let (b, env') = umi.get_balance o.env in (b, record o { env = env' })

  -- `loadOrCreateZoneKeypair`, as the public key
  unfoldable pub load_or_create_key : String → Script E String
  load_or_create_key file o = elim (lookup file (o.files).keys) [
    | some key ↦ (ok key, o)
    | none ↦
        let (key, env') = umi.generate o.env in
        (
          ok key,
          record { files = record (o.files) { keys = insert file key (o.files).keys }; env = env' },
        )
  ]

  abbrev owned_by : String → Outcome CoreAsset → Bool
  owned_by owner (throws t) = false
  owned_by owner (ok asset) = asset.owner is owner

  -- The `try` of the idempotency check: an asset that cannot be fetched is not there.
  abbrev is_minted : String → String → Script E Bool
  is_minted mint owner o =
      let (fetched, env') = umi.fetch_asset mint o.env in
      (ok (owned_by owner fetched), record o { env = env' })

  abbrev signer : Script E String
  signer o = let (key, env') = umi.generate o.env in (ok key, record o { env = env' })

  abbrev send : String → CoreAsset → Script E (Unit {0})
  send mint asset o =
      let (sent, env') = umi.create mint asset o.env in (sent, record o { env = env' })

  -- A fresh mint; the registry is saved after each.
  unfoldable pub mint_zone : ZoneSpec → String → Registry → Script E Registry
  mint_zone z owner registry = do
    mint ← signer
    send mint (new_asset z owner)
    let r = insert z.zone (record { mint = mint; pubkey = owner; name = z.name }) registry
    save_registry r
    done r

  -- One round of the loop.
  unfoldable pub register_zone : ZoneSpec → Registry → Script E Registry
  unfolding load_or_create_key mint_zone
  register_zone z registry = do
    owner ← load_or_create_key z.file
    elim (lookup z.zone registry) [
      | none ↦ mint_zone z owner registry
      | some existing ↦ do
        minted ← is_minted existing.mint owner
        if minted then done registry else mint_zone z owner registry
    ]

  unfoldable pub register_zones : List ZoneSpec → Registry → Script E Registry
  unfolding register_zone
  register_zones [] registry = done registry
  register_zones (z ∷ zs) registry = register_zone z registry >>= λ r. register_zones zs r

  -- The loop and the patch, from the registry that was loaded.
  unfoldable pub register_and_patch : Registry → Script E Registry
  unfolding register_zones patch_config
  register_and_patch registry = do
    r ← register_zones (read_zone ∷ compute_zone ∷ execute_zone ∷ []) registry
    patch_config r
    done r

  -- `main`; 0.05 SOL is 50000000 lamports.
  unfoldable pub register_agents : Script E Registry
  unfolding register_and_patch
  register_agents = do
    lamports ← balance
    stop_if (ltb lamports 50000000) (error "wallet needs >= 0.05 devnet SOL for three Core mints")
    registry ← load_registry
    register_and_patch registry
