-- ===== src/Tests/Registry.antt =====
-- The registry that is loaded from a configuration.
use risk_claw_sol.Prelude.{◌≡◌, ◌↔◌, refl, [], ◌∷◌, none, some, insert, lookup}
use risk_claw_sol.Types.{AgentConfig, execute}
use risk_claw_sol.Errors.{Outcome, ok, throws}
use risk_claw_sol.Config.{Config, AgentEntry}
use risk_claw_sol.Ids.{Ids, load_ids, optional_key, agent_registry, register_zone}
use risk_claw_sol.Client.{register_agent}
use risk_claw_sol.Client.Registry.{register_agent-load_ids}
use risk_claw_sol.Tests.Fixture.{web3, ids, world}

abbrev entry : AgentEntry
entry = record { mint = "A"; pubkey = "B"; name = "Guardian" }

abbrev config : Config
config = record {
  squads_v4_program_id = "S";
  dev_multisig = some "M";
  risk_policy_program_id = some "R";
  swig_delegation_program_id = none;
  devnet_agents = ("execute", entry) ∷ [];
}

abbrev loaded_in : Outcome Ids → Ids
loaded_in (ok i) = i
loaded_in (throws t) = ids

abbrev loaded : Ids
loaded = loaded_in (load_ids web3 config)

loads : load_ids web3 config ≡ ok loaded
unfolding load_ids optional_key agent_registry register_zone lookup insert
loads = refl

-- "A" is 65 and "B" is 66.
abbrev agent : AgentConfig
agent = record { zone = execute; name = "Guardian"; public_key = 66 }

register_agent-load_ids_example :
    ((register_agent loaded agent world ≡ (ok 65, world)) ↔ (agent.public_key ≡ 66))
    × ((register_agent loaded agent world).1 ≡ world)
unfolding lookup
register_agent-load_ids_example =
    register_agent-load_ids web3 config loaded agent entry 65 66 world loads refl refl refl
