-- ===== src/Verify/Owners.antt =====
-- verify-onchain.ts does not require that an agent's asset is owned by the registry's key.
use risk_claw_sol.Prelude.{◌≡◌, Bool, List, String, arith, lookup, ◌is◌, refl}
use risk_claw_sol.Types.{PublicKey}
use risk_claw_sol.Errors.{Outcome, ok, throws, bind-ok}
use risk_claw_sol.Config.{AgentEntry}
use risk_claw_sol.Ids.{Web3, Ids}
use risk_claw_sol.Registration.{CoreAsset}
use risk_claw_sol.Verify.{
  View, Report, required, check_agent, check_program, check_multisig, check_policy, verify_onchain,
  fetched_or_fail,
}

-- The asset that a key shows, with another owner.
abbrev pub reowned : String → Outcome CoreAsset → Outcome CoreAsset
reowned owner (ok asset) = ok (record asset { owner = owner })
reowned owner (throws t) = throws t

abbrev pub with_owners : (String → String) → View → View
with_owners owners view = record view {
  fetch_asset = λ mint. reowned (owners mint) (view.fetch_asset mint);
}

-- A run in which every check passes.
verify_onchain-parts :
    (view : View) (web3 : Web3) (ids : Ids) (agents : List (String × AgentEntry))
    {risk_policy swig multisig : PublicKey} {tag_checked read' compute' execute' : Bool}
    → required "RISK_POLICY_PROGRAM_ID null in config" ids.risk_policy_program_id ≡ ok risk_policy
    → required "SWIG_DELEGATION_PROGRAM_ID null in config" ids.swig_delegation_program_id ≡ ok swig
    → check_program view risk_policy ≡ ok tt
    → check_program view swig ≡ ok tt
    → required "DEV_MULTISIG null in config" ids.dev_multisig ≡ ok multisig
    → check_multisig view ids.squads_v4_program_id multisig ≡ ok tt
    → check_policy view web3 ids ≡ ok tag_checked
    → check_agent view agents "read" ≡ ok read'
    → check_agent view agents "compute" ≡ ok compute'
    → check_agent view agents "execute" ≡ ok execute'
    → verify_onchain view web3 ids agents
      ≡ ok (record {
        tag_checked = tag_checked;
        read_owner = read';
        compute_owner = compute';
        execute_owner = execute';
      })
unfolding verify_onchain
verify_onchain-parts view web3 ids agents a b c d e f g h i j =
    rw (a, b, c, d, e, f, g, h, i, j) refl

module _ (owners : String → String) (view : View) where
  check_agent-reowned :
      (agents : List (String × AgentEntry)) (zone : String) (note : Bool)
      → check_agent view agents zone ≡ ok note
      → (note' : Bool) × (check_agent (with_owners owners view) agents zone ≡ ok note')
  unfolding check_agent
  check_agent-reowned agents zone note passed =
      let (entry, listed, rest) =
        bind-ok (required "DEVNET_AGENTS entry missing in config" (lookup zone agents)) _ note
          passed in
      let (asset, fetched, rest2) =
        bind-ok (fetched_or_fail view (view.fetch_asset entry.mint)) _ note rest in
      (owners entry.mint is entry.pubkey, ground (arith, listed, fetched, rest2))

  -- If the script passes, it passes whoever owns the agents' assets.
  pub verify_onchain_ignores_owners :
      (web3 : Web3) (ids : Ids) (agents : List (String × AgentEntry)) (report : Report)
      → verify_onchain view web3 ids agents ≡ ok report
      → (report' : Report) × (verify_onchain (with_owners owners view) web3 ids agents ≡ ok report')
  unfolding verify_onchain check_program check_multisig check_policy
  verify_onchain_ignores_owners web3 ids agents report passed =
      let (risk_policy, a, rest1) =
        bind-ok (required "RISK_POLICY_PROGRAM_ID null in config" ids.risk_policy_program_id) _
          report passed in
      let (swig, b, rest2) =
        bind-ok
          (required "SWIG_DELEGATION_PROGRAM_ID null in config" ids.swig_delegation_program_id) _
          report rest1 in
      let (u, c, rest3) = bind-ok (check_program view risk_policy) _ report rest2 in
      let (v, d, rest4) = bind-ok (check_program view swig) _ report rest3 in
      let (multisig, e, rest5) =
        bind-ok (required "DEV_MULTISIG null in config" ids.dev_multisig) _ report rest4 in
      let (x, f, rest6) =
        bind-ok (check_multisig view ids.squads_v4_program_id multisig) _ report rest5 in
      let (tag_checked, g, rest7) = bind-ok (check_policy view web3 ids) _ report rest6 in
      let (read_owner, h, rest8) = bind-ok (check_agent view agents "read") _ report rest7 in
      let (compute_owner, i, rest9) = bind-ok (check_agent view agents "compute") _ report rest8 in
      let (execute_owner, j, last) = bind-ok (check_agent view agents "execute") _ report rest9 in
      let (read', h') = check_agent-reowned agents "read" read_owner h in
      let (compute', i') = check_agent-reowned agents "compute" compute_owner i in
      let (execute', j') = check_agent-reowned agents "execute" execute_owner j in
      (
        record {
          tag_checked = tag_checked;
          read_owner = read';
          compute_owner = compute';
          execute_owner = execute';
        },
        verify_onchain-parts (with_owners owners view) web3 ids agents a b c d e f g h' i' j',
      )
