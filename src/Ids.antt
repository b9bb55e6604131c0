-- ===== src/Ids.antt =====
-- packages/onchain/src/ids.ts: program ids, the registry of agents, and the derived addresses. The
-- constructor of `PublicKey` and `findProgramAddressSync` are web3.js's, and are parameters.
use risk_claw_sol.Prelude.{
  ℕ, List, [], ◌∷◌, codes, Option, none, some, String, ◌is◌, lookup, insert, if◌then◌else◌,
}
use risk_claw_sol.Types.{PublicKey, Zone, read, compute, execute}
use risk_claw_sol.Errors.{Outcome, ok, throws, error, ◌>>=◌}
use risk_claw_sol.Config.{Config, AgentEntry}

-- A seed of a derived address: the bytes of a literal, or those of a key (`toBuffer`).
pub data Seed : Type 0 where
  literal : List ℕ → Seed
  key : PublicKey → Seed

pub record Web3 : Type 0 where
  -- `new PublicKey(text)`, which throws on what is no address.
  pub new_public_key : String → Outcome PublicKey
  -- `PublicKey.findProgramAddressSync`, which throws if no bump serves.
  pub find_program_address : List Seed → PublicKey → Outcome (PublicKey × ℕ)

pub record AgentRegistryEntry : Type 0 where
  pub mint : PublicKey
  pub pubkey : PublicKey
  pub name : String

-- The module's exported constants.
pub record Ids : Type 0 where
  pub squads_v4_program_id : PublicKey
  pub risk_policy_program_id : Option PublicKey
  pub swig_delegation_program_id : Option PublicKey
  pub dev_multisig : Option PublicKey
  pub agent_registry : List (String × AgentRegistryEntry)

abbrev pub zone_name : Zone → String
zone_name read = "read"
zone_name compute = "compute"
zone_name execute = "execute"

abbrev pub risk_policy_seed : List ℕ
risk_policy_seed = codes "policy"

abbrev pub last_rebalanced_seed : List ℕ
last_rebalanced_seed = codes "last_rebalanced"

module _ (web3 : Web3) where
  -- `STR ? new PublicKey(STR) : null`: the empty text is false too.
  unfoldable pub optional_key : Option String → Outcome (Option PublicKey)
  optional_key none = ok none
  optional_key (some s) = if s is "" then ok none else (web3.new_public_key s >>= λ k. ok (some k))

  -- One round of the loop that fills `AGENT_REGISTRY`.
  unfoldable pub register_zone :
      List (String × AgentEntry)
      → Zone
      → List (String × AgentRegistryEntry)
      → Outcome (List (String × AgentRegistryEntry))
  register_zone agents zone out = elim (lookup (zone_name zone) agents) [
    | none ↦ ok out
    | some entry ↦ do
      mint ← web3.new_public_key entry.mint
      pubkey ← web3.new_public_key entry.pubkey
      ok (insert (zone_name zone) (record { mint = mint; pubkey = pubkey; name = entry.name }) out)
  ]

  unfoldable pub agent_registry :
      List (String × AgentEntry) → Outcome (List (String × AgentRegistryEntry))
  unfolding register_zone
  agent_registry agents = do
    first ← register_zone agents read []
    second ← register_zone agents compute first
    register_zone agents execute second

  -- Loading the module.
  unfoldable pub load_ids : Config → Outcome Ids
  unfolding optional_key agent_registry
  load_ids config = do
    squads ← web3.new_public_key config.squads_v4_program_id
    risk_policy ← optional_key config.risk_policy_program_id
    swig_delegation ← optional_key config.swig_delegation_program_id
    multisig ← optional_key config.dev_multisig
    registry ← agent_registry config.devnet_agents
    ok (record {
      squads_v4_program_id = squads;
      risk_policy_program_id = risk_policy;
      swig_delegation_program_id = swig_delegation;
      dev_multisig = multisig;
      agent_registry = registry;
    })

  abbrev derive : String → List ℕ → Option PublicKey → PublicKey → Outcome (PublicKey × ℕ)
  derive missing seed none owner = throws (error missing)
  derive missing seed (some program) owner =
      web3.find_program_address (literal seed ∷ key owner ∷ []) program

  -- `deriveRiskPolicyPda`
  abbrev pub derive_risk_policy_pda : Ids → PublicKey → Outcome (PublicKey × ℕ)
  derive_risk_policy_pda ids =
      derive "RISK_POLICY_PROGRAM_ID not set in config/devnet.ts — run deploy-devnet.ts first"
        risk_policy_seed ids.risk_policy_program_id

  -- `deriveLastRebalancedPda`
  abbrev pub derive_last_rebalanced_pda : Ids → PublicKey → Outcome (PublicKey × ℕ)
  derive_last_rebalanced_pda ids =
      derive "SWIG_DELEGATION_PROGRAM_ID not set in config/devnet.ts — run deploy-devnet.ts first"
        last_rebalanced_seed ids.swig_delegation_program_id
