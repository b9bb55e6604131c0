-- ===== src/Config.antt =====
-- config/devnet.ts: the addresses that the packages, the app and the scripts share. An address that
-- is not known yet is `null`.
use risk_claw_sol.Prelude.{List, [], ◌∷◌, Option, some, String}

pub record AgentEntry : Type 0 where
  pub mint : String
  pub pubkey : String
  pub name : String

-- What other modules import from the file; `devnet_agents` is an object keyed by zone.
pub record Config : Type 0 where
  pub squads_v4_program_id : String
  pub dev_multisig : Option String
  pub risk_policy_program_id : Option String
  pub swig_delegation_program_id : Option String
  pub devnet_agents : List (String × AgentEntry)

abbrev pub devnet_agents : List (String × AgentEntry)
devnet_agents =
    (
      "read",
      record {
        mint = "AERmaK7CD7HGp8zFHP3PEGtfEC6QWZUHYh6Xg8YHwLQU";
        pubkey = "EsRmSkrcjfoqEzgh4Wzbo56KqymTZ2NMMy1kxJtHHFRR";
        name = "Observer";
      },
    )
    ∷ (
      "compute",
      record {
        mint = "Hq5VqNHUNtENWTNTk3ZqJz6jdJExrzw5cUCayAhVUjdo";
        pubkey = "6GJuVdSUUenAC4B2px9VaCC63EjMhTE4K26zLHZQPo22";
        name = "Analyst";
      },
    )
    ∷ (
      "execute",
      record {
        mint = "ERxDBEUU6heys5PrA93tGZwjWucvhY3jJdyQpsFE9YzH";
        pubkey = "Ajeq8tVnK9CDJGagRnV2LWghduSYaeFpevpu7VoMBHpW";
        name = "Guardian";
      },
    )
    ∷ []

abbrev pub devnet : Config
devnet = record {
  squads_v4_program_id = "SQDS4ep65T869zMMBKyuUq6aD6EgTu8psMjkvj52pCf";
  dev_multisig = some "BpwBRaBoHj2it821Knv2WpKB67gC6rgfg7KRdBNHHqme";
  risk_policy_program_id = some "FNThNjwxtdVSttM1Q9R81pKbiSF7jCzt8vE22A4PHrzN";
  swig_delegation_program_id = some "9ECtiz1EnfKnVDYFKn4GofXGeoCZHupqN2GPkcgL9zBo";
  devnet_agents = devnet_agents;
}
