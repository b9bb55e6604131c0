-- ===== src/Client/Registry.antt =====
-- `registerAgent` over the registry that the module ids.ts loads from the configuration.
use risk_claw_sol.Prelude.{
  ◌≡◌, refl, sym, ap, ◌∙◌, ◌↔◌, inl, inr, false, List, [], Option, some, String, ◌is◌, arith,
  lookup, lookup-insert, eq_iff, Option-cases,
}
use risk_claw_sol.Types.{PublicKey, AgentConfig, Zone, read, compute, execute}
use risk_claw_sol.Errors.{Outcome, ok, throws, bind-ok}
use risk_claw_sol.Config.{Config, AgentEntry}
use risk_claw_sol.Ids.{
  Web3, Ids, AgentRegistryEntry, zone_name, register_zone, agent_registry, load_ids, optional_key,
}
use risk_claw_sol.Client.{World, register_agent}

module _ (web3 : Web3) where
  -- The entry that the registry should hold for one of the configuration.
  abbrev pub parsed : AgentEntry → PublicKey → PublicKey → AgentRegistryEntry
  parsed entry mint pubkey = record { mint = mint; pubkey = pubkey; name = entry.name }

  -- A round of the loop, for a zone of the configuration.
  register_zone-known :
      (agents : List (String × AgentEntry)) (zone : Zone)
      (out out' : List (String × AgentRegistryEntry)) (entry : AgentEntry) (mint pubkey : PublicKey)
      → register_zone web3 agents zone out ≡ ok out'
      → lookup (zone_name zone) agents ≡ some entry
      → web3.new_public_key entry.mint ≡ ok mint
      → web3.new_public_key entry.pubkey ≡ ok pubkey
      → lookup (zone_name zone) out' ≡ some (parsed entry mint pubkey)
  unfolding register_zone
  register_zone-known agents zone out out' entry mint pubkey loaded known a b = ground (
    arith,
    loaded,
    known,
    a,
    b,
    lookup-insert (zone_name zone) (zone_name zone) (parsed entry mint pubkey) out,
    eq_iff (zone_name zone) (zone_name zone),
  )

  -- Another zone's entry stays.
  register_zone-other :
      (agents : List (String × AgentEntry)) (zone other : Zone)
      (out out' : List (String × AgentRegistryEntry))
      → register_zone web3 agents zone out ≡ ok out'
      → (zone_name zone is zone_name other) ≡ false
      → lookup (zone_name other) out' ≡ lookup (zone_name other) out
  unfolding register_zone
  register_zone-other agents zone other out out' loaded apart =
      elim (Option-cases (lookup (zone_name zone) agents)) [
        | inl missing ↦
            ap (lookup (zone_name other)) (sym (ok-injective (ground (arith, loaded, missing))))
        | inr (entry, there) ↦
            let (mint, a, rest) =
              bind-ok (web3.new_public_key entry.mint) _ out'
                (rw (there, register_zone) at loaded) in
            let (pubkey, b, last) = bind-ok (web3.new_public_key entry.pubkey) _ out' rest in
            ap (lookup (zone_name other)) (sym (ok-injective last))
            ∙ lookup-insert (zone_name zone) (zone_name other) (parsed entry mint pubkey) out
            ∙ rw apart refl
      ]
    where
      ok-injective : {A : Type 0} {a b : A} → ok a ≡ ok b → a ≡ b
      ok-injective same = cc same

  -- The whole loop.
  pub agent_registry-known :
      (agents : List (String × AgentEntry)) (zone : Zone)
      (registry : List (String × AgentRegistryEntry)) (entry : AgentEntry) (mint pubkey : PublicKey)
      → agent_registry web3 agents ≡ ok registry
      → lookup (zone_name zone) agents ≡ some entry
      → web3.new_public_key entry.mint ≡ ok mint
      → web3.new_public_key entry.pubkey ≡ ok pubkey
      → lookup (zone_name zone) registry ≡ some (parsed entry mint pubkey)
  unfolding agent_registry
  agent_registry-known agents zone registry entry mint pubkey loaded known a b =
      let (first, l1, rest) = bind-ok (register_zone web3 agents read []) _ registry loaded in
      let (second, l2, l3) = bind-ok (register_zone web3 agents compute first) _ registry rest in
      by_zone first second l1 l2 l3 zone known
    where
      by_zone :
          (first second : List (String × AgentRegistryEntry))
          → register_zone web3 agents read [] ≡ ok first
          → register_zone web3 agents compute first ≡ ok second
          → register_zone web3 agents execute second ≡ ok registry
          → (z : Zone) → lookup (zone_name z) agents ≡ some entry
          → lookup (zone_name z) registry ≡ some (parsed entry mint pubkey)
      by_zone first second l1 l2 l3 read k =
          register_zone-other agents execute read second registry l3 refl
          ∙ register_zone-other agents compute read first second l2 refl
          ∙ register_zone-known agents read [] first entry mint pubkey l1 k a b
      by_zone first second l1 l2 l3 compute k =
          register_zone-other agents execute compute second registry l3 refl
          ∙ register_zone-known agents compute first second entry mint pubkey l2 k a b
      by_zone first second l1 l2 l3 execute k =
          register_zone-known agents execute second registry entry mint pubkey l3 k a b

  pub load_ids-registry :
      (config : Config) (ids : Ids)
      → load_ids web3 config ≡ ok ids
      → agent_registry web3 config.devnet_agents ≡ ok ids.agent_registry
  unfolding load_ids
  load_ids-registry config ids loaded =
      let (squads, a, rest1) =
        bind-ok (web3.new_public_key config.squads_v4_program_id) _ ids loaded in
      let (risk, b, rest2) =
        bind-ok (optional_key web3 config.risk_policy_program_id) _ ids rest1 in
      let (swig, c, rest3) =
        bind-ok (optional_key web3 config.swig_delegation_program_id) _ ids rest2 in
      let (multisig, d, rest4) = bind-ok (optional_key web3 config.dev_multisig) _ ids rest3 in
      let (registry, e, last) = bind-ok (agent_registry web3 config.devnet_agents) _ ids rest4 in
      e ∙ ap ok (same_registry last)
    where
      same_registry :
          {squads : PublicKey} {a b c : Option PublicKey}
          {registry : List (String × AgentRegistryEntry)} {i : Ids}
          → ok (record {
            squads_v4_program_id = squads;
            risk_policy_program_id = a;
            swig_delegation_program_id = b;
            dev_multisig = c;
            agent_registry = registry;
          })
            ≡ ok i
          → registry ≡ i.agent_registry
      same_registry same = ap agents_of same
        where
          agents_of : Outcome Ids → List (String × AgentRegistryEntry)
          agents_of (ok i) = i.agent_registry
          agents_of (throws t) = []

  -- For a zone of the configuration whose addresses parse, `registerAgent` gives the configured mint
  -- exactly to the agent with the configured key, and never changes the world.
  pub register_agent-load_ids :
      {E : Type 0} (config : Config) (ids : Ids) (agent : AgentConfig) (entry : AgentEntry)
      (mint pubkey : PublicKey) (w : World E)
      → load_ids web3 config ≡ ok ids
      → lookup (zone_name agent.zone) config.devnet_agents ≡ some entry
      → web3.new_public_key entry.mint ≡ ok mint
      → web3.new_public_key entry.pubkey ≡ ok pubkey
      → ((register_agent ids agent w ≡ (ok mint, w)) ↔ (agent.public_key ≡ pubkey))
        × ((register_agent ids agent w).1 ≡ w)
  unfolding register_agent
  register_agent-load_ids config ids agent entry mint pubkey w loaded known a b =
      let found : lookup (zone_name agent.zone) ids.agent_registry
          ≡ some (parsed entry mint pubkey) =
        agent_registry-known config.devnet_agents agent.zone ids.agent_registry entry mint pubkey
          (load_ids-registry config ids loaded) known a b in
      (((λ done. ground (arith, found, done)), (λ same. ground (arith, found, same))), refl)
