-- ===== src/Tests/Verifying.antt =====
-- The verifier on a chain where everything is in place.
use risk_claw_sol.Prelude.{◌≡◌, refl, true, List, [], ◌∷◌, ◌++◌, replicate, some, String, lookup}
use risk_claw_sol.Errors.{ok}
use risk_claw_sol.Config.{AgentEntry}
use risk_claw_sol.Encrypt.{stub_tag}
use risk_claw_sol.Verify.{
  View, Report, check_program, check_multisig, check_tag, check_policy, check_agent, verify_onchain,
}
use risk_claw_sol.Verify.Checks.{IsVerified, verify_onchain-IsVerified}
use risk_claw_sol.Tests.Fixture.{web3, ids}

-- An asset carries the text of its mint as its zone.
abbrev view : View
view = record {
  get_account_info = λ a. ok (some (record { executable = true; owner = 9 }));
  fetch_policy = λ a. ok (record {
    owning_multisig_vault = 7;
    ciphertext_ref = replicate 48 0 ++ stub_tag;
    arcium_handle = replicate 32 0;
    policy_hash = replicate 32 0;
    updated_at = 900;
    last_check_at = 0;
    bump = 254;
  });
  fetch_asset = λ mint.
      ok (record { owner = "key"; name = "agent"; uri = "uri"; attributes = ("zone", mint) ∷ [] });
  wallet = some 7;
}

abbrev entry_of : String → AgentEntry
entry_of zone = record { mint = zone; pubkey = "key"; name = "agent" }

abbrev agents : List (String × AgentEntry)
agents =
    ("read", entry_of "read")
    ∷ ("compute", entry_of "compute")
    ∷ ("execute", entry_of "execute")
    ∷ []

abbrev report : Report
report = record {
  tag_checked = true;
  read_owner = true;
  compute_owner = true;
  execute_owner = true;
}

passes : verify_onchain view web3 ids agents ≡ ok report
unfolding verify_onchain check_program check_multisig check_tag check_policy check_agent lookup
passes = refl

verify_onchain-IsVerified_example : IsVerified view web3 ids agents report
verify_onchain-IsVerified_example = verify_onchain-IsVerified view web3 ids agents report passes
