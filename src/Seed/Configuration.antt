-- ===== src/Seed/Configuration.antt =====
-- scripts/seed-demo.ts: the checks of config/devnet.ts, in their order. `process.exit(1)` is a throw
-- with what was printed before it.
use risk_claw_sol.Prelude.{List, Option, none, some, String, ◌is◌, if◌then◌else◌, lookup}
use risk_claw_sol.Errors.{Outcome, ok, throws, error, ◌>>=◌}
use risk_claw_sol.Config.{Config, AgentEntry}
use risk_claw_sol.Ids.{Web3}

-- `!value` for a value of the configuration: the empty text is false too.
unfoldable pub check_populated : String → Option String → Outcome String
check_populated label none = throws (error label)
check_populated label (some value) = if value is "" then throws (error label) else ok value

unfoldable pub check_agent : List (String × AgentEntry) → String → Outcome AgentEntry
check_agent agents zone = elim (lookup zone agents) [
  | none ↦ throws (error "agent missing — run register-agents")
  | some entry ↦ ok entry
]

module _ (web3 : Web3) where
  unfoldable pub parse_agent : AgentEntry → Outcome (Unit {0})
  parse_agent entry = do
    mint ← web3.new_public_key entry.mint
    key ← web3.new_public_key entry.pubkey
    ok tt

  -- 1) the configuration
  unfoldable pub preflight : Config → Outcome (Unit {0})
  unfolding check_populated check_agent parse_agent
  preflight config = do
    risk_policy ← check_populated "RISK_POLICY_PROGRAM_ID" config.risk_policy_program_id
    swig ← check_populated "SWIG_DELEGATION_PROGRAM_ID" config.swig_delegation_program_id
    multisig ← check_populated "DEV_MULTISIG" config.dev_multisig
    observer ← check_agent config.devnet_agents "read"
    analyst ← check_agent config.devnet_agents "compute"
    guardian ← check_agent config.devnet_agents "execute"
    risk_policy_key ← web3.new_public_key risk_policy
    swig_key ← web3.new_public_key swig
    multisig_key ← web3.new_public_key multisig
    observer_parsed ← parse_agent observer
    analyst_parsed ← parse_agent analyst
    parse_agent guardian
