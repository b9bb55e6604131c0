-- ===== src/Smoke/Run.antt =====
-- The demo as a whole: on a cluster that is set up for it, a run passes every step.
use risk_claw_sol.Prelude.{
  take, drop, codes, ℕ, ◌≤◌, ◌<◌, ◌≡◌, refl, ◌∙◌, ap, sym, List, Option, none, some, true, String,
  arith,
}
use risk_claw_sol.Types.{PublicKey, TxSig, ThresholdCheckResult}
use risk_claw_sol.Errors.{ok}
use risk_claw_sol.Config.{AgentEntry}
use risk_claw_sol.Ids.{Ids, derive_risk_policy_pda, derive_last_rebalanced_pda}
use risk_claw_sol.Programs.SwigDelegation.{RebalanceExecutedEvent}
use risk_claw_sol.Programs.SwigDelegation.Gates.{InWindow}
use risk_claw_sol.Client.{
  World, RealClient, set_encrypted_policy, create_real_client, delegate_to_guardian,
}
use risk_claw_sol.Devnet.{Deployment}
use risk_claw_sol.Devnet.Execution.{stored_or_new}
use risk_claw_sol.Session.{Session, session_host}
use risk_claw_sol.Session.Rebalance.{IsOnline}
use risk_claw_sol.Session.Policy.{IsSetUp, policy_stored, find_address}
use risk_claw_sol.Encrypt.{encrypt_threshold, le_bytes}
use risk_claw_sol.Encrypt.Packing.{encrypt_threshold_bytes}
use risk_claw_sol.Smoke.Steps.{paced-IsLater, paced-client, IsLater, check_steps_pass}
use risk_claw_sol.Smoke.{
  paced, threshold_plaintext, same_bytes, check_steps, script_opts, has_agent, min_balance,
  preconditions, demo_steps, e2e_smoke, demo_plan, rebalance_steps,
}
use risk_claw_sol.Smoke.Rebalance.{Delivers, still_allowed, rebalance_steps_pass}

-- The world that `main` starts in.
abbrev pub demo_world : Session → World Session
demo_world s = record { client = create_real_client script_opts; env = s }

module _ (deployment : Deployment) (ids : Ids) (wallet : PublicKey) (to_base58 : PublicKey → String)
    (heard : List RebalanceExecutedEvent → Session → Option RebalanceExecutedEvent) where
  -- A session in which the demo can run.
  pub record IsDemoReady (agents : List (String × AgentEntry)) (s : Session) : Type 0 where
    pub set_up : IsSetUp deployment ids wallet (demo_world s)
    pub multisig : PublicKey
    pub multisig_set : ids.dev_multisig ≡ some multisig
    pub read_agent : has_agent "read" agents ≡ true
    pub compute_agent : has_agent "compute" agents ≡ true
    pub execute_agent : has_agent "execute" agents ≡ true
    pub pda : PublicKey × ℕ
    pub same_swig : ids.swig_delegation_program_id ≡ some deployment.swig_delegation_program
    pub derived : derive_last_rebalanced_pda deployment.web3 ids set_up.found.0 ≡ ok pda
    pub rate : ¬ (InWindow s.chain.unix_timestamp (stored_or_new s.chain pda.0))
    pub parsed : deployment.web3.new_public_key (to_base58 set_up.found.0) ≡ ok set_up.found.0

  preconditions_met :
      (agents : List (String × AgentEntry)) (s : Session) (lamports : ℕ)
      → IsDemoReady agents s
      → min_balance ≤ lamports
      → preconditions ids agents (ok lamports) ≡ ok tt
  unfolding preconditions
  preconditions_met agents s lamports r enough = ground (
    arith, r.multisig_set, r.read_agent, r.compute_agent, r.execute_agent, r.same_swig,
    r.set_up.same_program,
  )

  set_up_later :
      (agents : List (String × AgentEntry)) (s : Session) (w : World Session)
      (r : IsDemoReady agents s)
      → w.client ≡ create_real_client script_opts
      → IsLater s w.env
      → IsSetUp deployment ids wallet w
  unfolding create_real_client
  set_up_later agents s w r new later = record {
    found = r.set_up.found;
    has_program = ap (λ (c : RealClient). c.risk_policy) new;
    same_program = r.set_up.same_program;
    located = r.set_up.located;
    connected = later.same_link ∙ r.set_up.connected;
    no_other = ap (λ m. m r.set_up.found.0) later.same_accounts ∙ r.set_up.no_other;
    own_address =
        λ p h. r.set_up.own_address p (sym (ap (λ m. m r.set_up.found.0) later.same_policies) ∙ h);
  }

  tag_present :
      same_bytes
        (take 16 (drop 48 (encrypt_threshold threshold_plaintext none)))
        (codes "RISKCLAW_V1_STUB")
      ≡ true
  unfolding encrypt_threshold le_bytes
  tag_present = refl

  -- The steps in a row, from what each of them does.
  demo_steps_are :
      (pace_ms : ℕ) (w w1 w4 w5 : World Session) (found : PublicKey × ℕ) {set_sig exec_sig : TxSig}
      {result : ThresholdCheckResult}
      → set_encrypted_policy
          (session_host deployment wallet)
          deployment.web3
          ids
          wallet
          (encrypt_threshold threshold_plaintext none)
          w
        ≡ (ok set_sig, w1)
      → derive_risk_policy_pda deployment.web3 ids wallet ≡ ok found
      → check_steps deployment ids wallet pace_ms
          (to_base58 found.0)
          (paced pace_ms (paced pace_ms w1))
        ≡ (ok result, w4)
      → rebalance_steps deployment ids wallet to_base58 heard pace_ms found.0
          (paced pace_ms w1).env.chain.events
          w4
        ≡ (ok exec_sig, w5)
      → demo_steps deployment ids wallet to_base58 heard pace_ms w
        ≡ (ok (record { set_sig = set_sig; exec_sig = exec_sig; policy_pda = found.0 }), w5)
  unfolding demo_steps delegate_to_guardian
  demo_steps_are pace_ms w w1 w4 w5 found sent derived passed rebalanced =
      ground (arith, tag_present, sent, derived, passed, rebalanced)

  -- Steps 2 to 9 pass.
  demo_steps_pass :
      (agents : List (String × AgentEntry)) (s : Session) (w : World Session)
      (r : IsDemoReady agents s) (pace_ms : ℕ)
      → w.client ≡ create_real_client script_opts
      → IsLater s w.env
      → Delivers heard
      → pace_ms < 5000
      → (sig : TxSig) × (w' : World Session) × (demo_steps deployment ids wallet to_base58 heard
            pace_ms w
          ≡ (
            ok (record {
              set_sig = deployment.signature w.env.chain.count;
              exec_sig = sig;
              policy_pda = r.set_up.found.0;
            }),
            w',
          ))
  unfolding create_real_client
  demo_steps_pass agents s w r pace_ms new later delivers quick =
      let start = set_up_later agents s w r new later in
      let id : String = to_base58 r.set_up.found.0 in
      let (w1, sent, holds, kept) =
        policy_stored deployment ids wallet (encrypt_threshold threshold_plaintext none) w start
          (encrypt_threshold_bytes threshold_plaintext none).0 in
      let w2 : World Session = paced pace_ms w1 in
      let w3 : World Session = paced pace_ms w2 in
      let l2 = paced-IsLater pace_ms w1 in
      let l3 = paced-IsLater pace_ms w2 in
      let c3 : w3.client ≡ create_real_client script_opts =
        paced-client pace_ms w2 ∙ paced-client pace_ms w1 ∙ kept.same_client ∙ new in
      let (w4, passed, checked) =
        check_steps_pass deployment ids wallet pace_ms id w3
          (ap (λ (c : RealClient). c.read_cache) c3)
          (ap (λ (c : RealClient). c.read_throttle_ms) c3) quick in
      let l4 = checked.later in
      let o : IsOnline deployment ids (demo_plan id) w4 = record {
        ready = record {
          policy = r.set_up.found.0;
          program = deployment.swig_delegation_program;
          pda = r.pda;
          action_exit = refl;
          has_program = checked.same_swig ∙ ap (λ (c : RealClient). c.swig_delegation) c3;
          program_set = r.same_swig;
          parsed = r.parsed;
          derived = r.derived;
        };
        same_program = r.same_swig;
        connected = l4.same_link ∙ l3.same_link ∙ l2.same_link ∙ kept.same_link ∙ start.connected;
      } in
      let rate =
        still_allowed s.chain w4.env.chain r.pda.0
          (l4.same_accounts ∙ l3.same_accounts ∙ l2.same_accounts ∙ kept.same_accounts
            ∙ later.same_accounts)
          (omega (arith, l4.clock, l3.clock, l2.clock, kept.same_clock, later.clock)) r.rate in
      let (w5, rebalanced) =
        rebalance_steps_pass deployment ids wallet to_base58 heard pace_ms r.set_up.found.0
          w2.env.chain.events w4 o (l4.same_events ∙ l3.same_events) refl
          (checked.same_writes ∙ ap (λ (c : RealClient). c.write_cache) c3)
          (checked.same_write_throttle ∙ ap (λ (c : RealClient). c.write_throttle_ms) c3) rate
          delivers (omega arith) in
      (
        deployment.signature w4.env.chain.count,
        w5,
        demo_steps_are pace_ms w w1 w4 w5 r.set_up.found sent
            (find_address deployment ids wallet r.set_up.found r.set_up.same_program
              r.set_up.located)
            passed rebalanced,
      )

  -- On a cluster that is set up for the demo, with a wallet of at least 0.05 SOL, a listener that
  -- delivers, and a pace of less than five seconds, the script passes all its steps.
  pub e2e_smoke_passes :
      (agents : List (String × AgentEntry)) (s : Session) (pace_ms lamports : ℕ)
      (r : IsDemoReady agents s)
      → Delivers heard
      → pace_ms < 5000
      → min_balance ≤ lamports
      → (set_sig exec_sig : TxSig) × (w' : World Session) × (e2e_smoke deployment ids wallet
            to_base58 heard pace_ms agents
            (ok lamports)
            s
          ≡ (
            ok (record { set_sig = set_sig; exec_sig = exec_sig; policy_pda = r.set_up.found.0 }),
            w',
          ))
  unfolding e2e_smoke
  e2e_smoke_passes agents s pace_ms lamports r delivers quick enough =
      let w : World Session = paced pace_ms (demo_world s) in
      let (exec_sig, w', passed) =
        demo_steps_pass agents s w r pace_ms (paced-client pace_ms (demo_world s))
          (paced-IsLater pace_ms (demo_world s)) delivers quick in
      (
        deployment.signature w.env.chain.count,
        exec_sig,
        w',
        ground (arith, preconditions_met agents s lamports r enough, passed),
      )
