-- ===== src/App/Trail/Cards.antt =====
-- app/app/audit/page.tsx: the cards of the three agents, from the registry that the package has loaded.
-- A zone that is missing from it stops the module from loading.
use Prim.Native.String.{◌++◌ as joined}
use risk_claw_sol.Prelude.{ℕ, ◌≡◌, List, [], ◌∷◌, none, some, String, codes, lookup, arith}
use risk_claw_sol.Types.{PublicKey, Zone, read, compute, execute}
use risk_claw_sol.Errors.{Outcome, ok, throws, error, ◌>>=◌}
use risk_claw_sol.Config.{Config, AgentEntry}
use risk_claw_sol.Ids.{Web3, Ids, AgentRegistryEntry, zone_name, load_ids}
use risk_claw_sol.Audit.{shorten_sig}
use risk_claw_sol.Client.Registry.{agent_registry-known, load_ids-registry}
use risk_claw_sol.Seed.{preflight}
use risk_claw_sol.Seed.Preflight.{IsAgent, IsReady, preflight-IsReady, preflight-load_ids}

-- An element of `AGENTS`.
pub record Agent : Type 0 where
  pub zone : Zone
  pub name : String
  pub pubkey : String
  pub core_mint : String

pub record Card : Type 0 where
  pub label : String
  pub dot : String
  pub name : String
  pub pubkey : List ℕ
  pub core : List ℕ
  pub href : String
  pub rule : String

-- `ZONE_COPY`
abbrev zone_label : Zone → String
zone_label read = "READ"
zone_label compute = "COMPUTE"
zone_label execute = "EXECUTE"

abbrev zone_dot : Zone → String
zone_dot read = "zone-dot"
zone_dot compute = "zone-dot outline"
zone_dot execute = "zone-dot split"

abbrev zone_rule : Zone → String
zone_rule read = "Helius LaserStream consumer. No signing key, no policy access."
zone_rule compute = "Calls Arcium MPC; receives only {breached, score}. Never decrypts."
zone_rule execute = "Holds the only signing key. Bounded by Swig delegation onchain."

unfoldable pub card_of : Agent → Card
card_of agent = record {
  label = zone_label agent.zone;
  dot = zone_dot agent.zone;
  name = agent.name;
  pubkey = shorten_sig (codes agent.pubkey) 6 6;
  core = shorten_sig (codes agent.core_mint) 6 6;
  href = joined (joined "https://explorer.solana.com/address/" agent.core_mint) "?cluster=devnet";
  rule = zone_rule agent.zone;
}

module _ (to_base58 : PublicKey → String) where
  -- The element of `AGENTS` for a zone.
  unfoldable pub agent_of : List (String × AgentRegistryEntry) → Zone → Outcome Agent
  agent_of registry zone = elim (lookup (zone_name zone) registry) [
    | none ↦ throws (error "Cannot read properties of undefined")
    | some entry ↦ ok (record {
      zone = zone;
      name = entry.name;
      pubkey = to_base58 entry.pubkey;
      core_mint = to_base58 entry.mint;
    })
  ]

  -- `AGENTS`
  unfoldable pub agents : List (String × AgentRegistryEntry) → Outcome (List Agent)
  agents registry = do
    observer ← agent_of registry read
    analyst ← agent_of registry compute
    guardian ← agent_of registry execute
    ok (observer ∷ analyst ∷ guardian ∷ [])

  -- The element that the configuration describes.
  abbrev pub configured : Zone → AgentEntry → Agent
  configured zone entry = record {
    zone = zone;
    name = entry.name;
    pubkey = entry.pubkey;
    core_mint = entry.mint;
  }

  module _ (web3 : Web3)
      (prints : (text : String) (key : PublicKey)
        → web3.new_public_key text ≡ ok key
        → to_base58 key ≡ text) where
    agent_of-configured :
        (config : Config) (ids : Ids) (zone : Zone)
        (a : IsAgent web3 config.devnet_agents (zone_name zone))
        → load_ids web3 config ≡ ok ids
        → agent_of ids.agent_registry zone ≡ ok (configured zone a.entry)
    unfolding agent_of
    agent_of-configured config ids zone a loaded =
        let found =
          agent_registry-known web3 config.devnet_agents zone ids.agent_registry a.entry a.mint
            a.key (load_ids-registry web3 config ids loaded) a.there a.mint_parsed a.key_parsed in
        ground (
          arith,
          found,
          prints (a.entry).mint a.mint a.mint_parsed,
          prints (a.entry).pubkey a.key a.key_parsed,
        )

    -- A key prints as the text that it was read from, and the configuration names a Squads program. If
    -- the configuration passes the preflight of seed-demo.ts, then the audit page loads, and its cards
    -- are those of the three configured agents: their names, keys and mints, in the order of the zones.
    pub agents-configured :
        (config : Config) (squads : PublicKey)
        → preflight web3 config ≡ ok tt
        → web3.new_public_key config.squads_v4_program_id ≡ ok squads
        → (ids : Ids) × (observer analyst guardian : AgentEntry) × (load_ids web3 config ≡ ok ids)
          × (lookup "read" config.devnet_agents ≡ some observer)
          × (lookup "compute" config.devnet_agents ≡ some analyst)
          × (lookup "execute" config.devnet_agents ≡ some guardian)
          × (agents ids.agent_registry
              ≡ ok (
                  configured read observer
                  ∷ configured compute analyst
                  ∷ configured execute guardian
                  ∷ []))
    unfolding agents
    agents-configured config squads passed named =
        let r : IsReady web3 config = preflight-IsReady web3 config passed in
        let (ids, loaded, _, _, _) = preflight-load_ids web3 config squads passed named in
        (
          ids,
          r.observer.entry,
          r.analyst.entry,
          r.guardian.entry,
          loaded,
          r.observer.there,
          r.analyst.there,
          r.guardian.there,
          ground (
            arith,
            agent_of-configured config ids read r.observer loaded,
            agent_of-configured config ids compute r.analyst loaded,
            agent_of-configured config ids execute r.guardian loaded,
          ),
        )
