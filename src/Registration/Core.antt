-- ===== src/Registration/Core.antt =====
-- The chain's assets as the library of `register_agents` shows them: an asset once created stays, and
-- an address in use cannot be created again.
use risk_claw_sol.Prelude.{ℕ, suc, Option, none, some, String, ◌is◌, if◌then◌else◌}
use risk_claw_sol.Errors.{Outcome, ok, throws, error}
use risk_claw_sol.Registration.{CoreAsset, Umi}

pub record Core : Type 0 where
  pub assets : String → Option CoreAsset
  pub lamports : ℕ
  -- how many keys have been generated
  pub generated : ℕ

module _ (fresh : ℕ → String) where
  abbrev created : Option CoreAsset → String → CoreAsset → Core → Outcome (Unit {0}) × Core
  created (some there) k asset c = (throws (error "account already in use"), c)
  created none k asset c =
      (ok tt, record c { assets = λ a. if a is k then some asset else c.assets a })

  abbrev fetched : Option CoreAsset → Outcome CoreAsset
  fetched none = throws (error "the asset account was not found")
  fetched (some asset) = ok asset

  abbrev pub core_umi : Umi Core
  core_umi = record {
    get_balance = λ c. (ok c.lamports, c);
    generate = λ c. (fresh c.generated, record c { generated = suc c.generated });
    fetch_asset = λ k c. (fetched (c.assets k), c);
    create = λ k asset c. created (c.assets k) k asset c;
  }
