-- ===== src/Deploy/Runs.antt =====
-- When deploy-devnet.ts leaves the machine alone.
use risk_claw_sol.Prelude.{
  ◌≡◌, refl, ◌⊎◌, inl, inr, Bool, true, ◌&&◌, Option, String, arith, Bool-cases,
}
use risk_claw_sol.Errors.{Outcome-cases}
use risk_claw_sol.Deploy.{Machine, Outside, is_set, sh, patch_config, deploy, deploy_devnet}

module _ (outside : Outside) where
  dry_run-same : (m : Machine) → (deploy outside true m).1 ≡ m
  unfolding deploy sh patch_config
  dry_run-same m = elim (Outcome-cases outside.get_balance) [
    | inl (t, broken) ↦ ground (arith, broken)
    | inr (balance, known) ↦ ground (arith, known)
  ]

  -- A dry run, and a run with both programs in the configuration, execute no command and write no
  -- file, however they end.
  pub deploy_devnet_changes_nothing :
      (dry_run : Bool) (risk_policy swig : Option String) (m : Machine)
      → (dry_run ≡ true) ⊎ ((is_set risk_policy && is_set swig) ≡ true)
      → (deploy_devnet outside dry_run risk_policy swig m).1 ≡ m
  unfolding deploy_devnet
  deploy_devnet_changes_nothing dry_run risk_policy swig m (inr there) = rw there refl
  deploy_devnet_changes_nothing dry_run risk_policy swig m (inl dry) =
      elim (Bool-cases (is_set risk_policy && is_set swig)) [
        | inl there ↦ rw there refl
        | inr missing ↦ rw (missing, dry) (dry_run-same m)
      ]
