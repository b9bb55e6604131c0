-- ===== src/Tests/Registering.antt =====
-- The registration of the agents, from no files at all.
use Prim.Native.String.{◌++◌}
use risk_claw_sol.Prelude.{ℕ, zero, suc, ◌≡◌, refl, arith, [], none, String, lookup, insert}
use risk_claw_sol.Errors.{Outcome, ok, throws}
use risk_claw_sol.Registration.{
  Registry, Office, absent, register_agents, register_and_patch, register_zones, register_zone,
  load_or_create_key, mint_zone, patch_config,
}
use risk_claw_sol.Registration.Core.{Core, core_umi}
use risk_claw_sol.Registration.Again.{
  IsRegistered, funded, register_agents-IsRegistered, register_agents_again,
}

abbrev fresh : ℕ → String
fresh zero = "k"
fresh (suc n) = "k" ++ fresh n

abbrev start : Office Core
start = record {
  files = record { keys = []; registry = none; agents = absent };
  env = record { assets = λ a. none; lamports = 50000000; generated = 0 };
}

abbrev registered : Office Core
registered = (register_agents (core_umi fresh) start).1

abbrev registry_in : Outcome Registry → Registry
registry_in (ok r) = r
registry_in (throws t) = []

abbrev registry : Registry
registry = registry_in (register_agents (core_umi fresh) start).0

first_run : register_agents (core_umi fresh) start ≡ (ok registry, registered)
unfolding register_agents register_and_patch register_zones register_zone load_or_create_key
    mint_zone patch_config lookup insert
first_run = refl

register_agents-IsRegistered_example : IsRegistered fresh registry registered
register_agents-IsRegistered_example =
    register_agents-IsRegistered fresh registry start registered first_run

register_agents_again_example :
    register_agents (core_umi fresh) (funded fresh 60000000 registered)
    ≡ (ok registry, funded fresh 60000000 registered)
register_agents_again_example =
    register_agents_again fresh registry start registered 60000000 first_run (omega arith)
