-- ===== src/Deploy/Stages.antt =====
-- How a real run of deploy-devnet.ts ends: its commands run in order, none after one that fails, and
-- the configuration is written only after all of them.
use risk_claw_sol.Prelude.{◌+◌, ◌≡◌, false, List, [], ◌∷◌, ◌++◌, All, String}
use risk_claw_sol.Errors.{Outcome, ok, throws, Thrown}
use risk_claw_sol.Deploy.{
  Machine, Outside, ProgramIds, Deploying, ◌>>=◌, patched, patch_config, key_of,
}
use risk_claw_sol.Deploy.Commands.{commands, key_commands, after_commands, Succeeds}

module _ (outside : Outside) where
  abbrev finish : Deploying (Unit {0})
  finish = do
    risk_policy ← key_of outside false "<DRY_RUN_RISK_POLICY_ID>" "risk_policy-keypair.json"
    swig ← key_of outside false "<DRY_RUN_SWIG_ID>" "swig_delegation-keypair.json"
    patch_config outside false (record { risk_policy = risk_policy; swig_delegation = swig })

  -- The ways a real run can end.
  pub data DeployEnds (m : Machine) (r : Outcome (Unit {0}) × Machine) : Type 0 where
    deployed :
        (ids : ProgramIds)
        → All (Succeeds outside) commands
        → outside.keypair_pubkey "risk_policy-keypair.json" ≡ ok ids.risk_policy
        → outside.keypair_pubkey "swig_delegation-keypair.json" ≡ ok ids.swig_delegation
        → r ≡ (
          ok tt,
          record (after_commands (commands ++ key_commands) m) {
            config = patched ids m.config;
            writes = m.writes + 1;
          },
        )
        → DeployEnds m r
    refused : (t : Thrown) → r ≡ (throws t, m) → DeployEnds m r
    command_failed :
        (done rest : List String) (c : String) (t : Thrown)
        → commands ≡ done ++ (c ∷ rest)
        → All (Succeeds outside) done
        → outside.exec c ≡ throws t
        → r ≡ (throws t, after_commands (done ++ (c ∷ [])) m)
        → DeployEnds m r
    no_keypair :
        (asked left : List String) (t : Thrown)
        → All (Succeeds outside) commands
        → key_commands ≡ asked ++ left
        → r ≡ (throws t, after_commands (commands ++ asked) m)
        → DeployEnds m r
