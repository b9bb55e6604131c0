-- ===== src/Smoke/RealClient.antt =====
-- scripts/smoke-realclient.ts: the integration script, and that it passes on a cluster that is set up.
use risk_claw_sol.Prelude.{
  ℕ, ◌≤◌, ◌≡◌, refl, ◌∙◌, ap, sym, true, not, ◌&&◌, Option, none, some, String, ltb, ◌is◌, arith,
  eq_refl, lookup, ==_refl, List, [], ◌∷◌,
}
use risk_claw_sol.Types.{PublicKey, TxSig, Action, RebalancePlan}
use risk_claw_sol.Errors
use risk_claw_sol.Errors.{Outcome, error}
use risk_claw_sol.Encrypt.{encrypt_threshold}
use risk_claw_sol.Encrypt.Packing.{encrypt_threshold_bytes}
use risk_claw_sol.Ids.{Ids, derive_risk_policy_pda, derive_last_rebalanced_pda}
use risk_claw_sol.Programs.SwigDelegation.{LastRebalanced}
use risk_claw_sol.Programs.SwigDelegation.Gates.{InWindow}
use risk_claw_sol.Programs.RiskPolicy.{RiskPolicy}
use risk_claw_sol.Client.{
  World, RealClient, Call, ◌>>=◌, ◌>>◌, pure, throw_if, lift, is_some, create_real_client,
  set_encrypted_policy, execute_private_rebalance, fresh_write,
}
use risk_claw_sol.Devnet.{Deployment}
use risk_claw_sol.Devnet.RateLimit.{landed-injective}
use risk_claw_sol.Devnet.Execution.{stored_or_new}
use risk_claw_sol.Session.{Session, session_host, up, down, unconfirmed, Link}
use risk_claw_sol.Session.Policy.{IsSetUp, policy_stored, find_address}
use risk_claw_sol.Session.Rebalance.{IsOnline, world_executed, rebalance_executed}
use risk_claw_sol.Smoke.{threshold_plaintext, same_bytes, min_balance, script_opts}
use risk_claw_sol.Smoke.Rebalance.{repeated, still_allowed}
use risk_claw_sol.Smoke.Run.{demo_world}

abbrev pub half_plan : String → RebalancePlan
half_plan id = record { position_id = id; action = Action.exit; size_bps = 5000 }

-- `connection.getAccountInfo`, where the script goes on to read the data.
abbrev over_link : {A : Type 0} → Link → A → Outcome A
over_link up a = Errors.ok a
over_link (down text) a = Errors.throws (error text)
over_link (unconfirmed text) a = Errors.ok a

abbrev read_policy : PublicKey → Call Session (Option RiskPolicy)
read_policy k w = (over_link w.env.link (w.env.chain.policies k), w)

abbrev read_last_rebalanced : PublicKey → Call Session (Option LastRebalanced)
read_last_rebalanced k w = (over_link w.env.link (w.env.chain.last_rebalanced k), w)

-- An account that must be there, or the script ends.
abbrev found_or : {A : Type 0} → String → Option A → Outcome A
found_or reason none = Errors.throws (error reason)
found_or reason (some a) = Errors.ok a

pub record SmokeSummary : Type 0 where
  pub set_sig : TxSig
  pub exec_sig : TxSig
  pub timestamp : ℕ

module _ (deployment : Deployment) (ids : Ids) (wallet : PublicKey)
    (to_base58 : PublicKey → String) where
  -- The three steps, with the client that the script has made.
  unfoldable pub smoke_steps : Call Session SmokeSummary
  smoke_steps = do
    let ciphertext = encrypt_threshold threshold_plaintext none
    policy ← lift (derive_risk_policy_pda deployment.web3 ids wallet)
    set_sig ←
        set_encrypted_policy (session_host deployment wallet) deployment.web3 ids wallet ciphertext
    info ← read_policy policy.0
    account ← lift (found_or "RiskPolicy PDA not found" info)
    throw_if (not (same_bytes account.ciphertext_ref ciphertext)) (error "ciphertext mismatch")
    pda ← lift (derive_last_rebalanced_pda deployment.web3 ids policy.0)
    exec_sig ←
        execute_private_rebalance (session_host deployment wallet) deployment.web3 ids
          (half_plan (to_base58 policy.0))
    lr_info ← read_last_rebalanced pda.0
    lr ← lift (found_or "LastRebalanced PDA not found" lr_info)
    sig2 ←
        execute_private_rebalance (session_host deployment wallet) deployment.web3 ids
          (half_plan (to_base58 policy.0))
    throw_if (not (sig2 is exec_sig)) (error "FR-8b broken: expected prior TxSig")
    pure (record { set_sig = set_sig; exec_sig = exec_sig; timestamp = lr.timestamp })

  -- `main`
  unfoldable pub smoke_realclient : Outcome ℕ → Session → Outcome SmokeSummary × World Session
  unfolding smoke_steps
  smoke_realclient balance s =
      (throw_if (not (is_some ids.risk_policy_program_id && is_some ids.swig_delegation_program_id))
            (error "Program IDs not set in config/devnet.ts — run deploy-devnet first")
          >> (lift balance >>= λ lamports.
              throw_if (ltb lamports min_balance) (error "wallet needs >= 0.05 SOL for two txs")
              >> smoke_steps))
        (record { client = create_real_client script_opts; env = s })

  -- What the script needs of the cluster.
  pub record IsSmokeReady (s : Session) : Type 0 where
    pub set_up : IsSetUp deployment ids wallet (demo_world s)
    pub pda : PublicKey × ℕ
    pub same_swig : ids.swig_delegation_program_id ≡ some deployment.swig_delegation_program
    pub derived : derive_last_rebalanced_pda deployment.web3 ids set_up.found.0 ≡ Errors.ok pda
    pub rate : ¬ (InWindow s.chain.unix_timestamp (stored_or_new s.chain pda.0))
    pub parsed :
        deployment.web3.new_public_key (to_base58 set_up.found.0) ≡ Errors.ok set_up.found.0

  same_bytes_refl : (bs : List ℕ) → same_bytes bs bs ≡ true
  same_bytes_refl [] = refl
  same_bytes_refl (b ∷ bs) = ground (arith, same_bytes_refl bs, ==_refl b)

  -- The steps in a row, from what each of them does.
  smoke_steps_are :
      (w w1 w2 : World Session) (found pda : PublicKey × ℕ) (p : RiskPolicy) (lr : LastRebalanced)
      {set_sig exec_sig : TxSig}
      → derive_risk_policy_pda deployment.web3 ids wallet ≡ Errors.ok found
      → set_encrypted_policy
          (session_host deployment wallet)
          deployment.web3
          ids
          wallet
          (encrypt_threshold threshold_plaintext none)
          w
        ≡ (Errors.ok set_sig, w1)
      → w1.env.link ≡ up
      → w1.env.chain.policies found.0 ≡ some p
      → p.ciphertext_ref ≡ encrypt_threshold threshold_plaintext none
      → derive_last_rebalanced_pda deployment.web3 ids found.0 ≡ Errors.ok pda
      → execute_private_rebalance
          (session_host deployment wallet)
          deployment.web3
          ids
          (half_plan (to_base58 found.0))
          w1
        ≡ (Errors.ok exec_sig, w2)
      → w2.env.link ≡ up
      → w2.env.chain.last_rebalanced pda.0 ≡ some lr
      → execute_private_rebalance
          (session_host deployment wallet)
          deployment.web3
          ids
          (half_plan (to_base58 found.0))
          w2
        ≡ (Errors.ok exec_sig, w2)
      → smoke_steps w ≡ (
        Errors.ok (record { set_sig = set_sig; exec_sig = exec_sig; timestamp = lr.timestamp }),
        w2,
      )
  unfolding smoke_steps
  smoke_steps_are w w1 w2 found pda p lr {set_sig} {exec_sig} a b c d e f g h i j =
      let same : same_bytes p.ciphertext_ref (encrypt_threshold threshold_plaintext none) ≡ true =
        rw e (same_bytes_refl (encrypt_threshold threshold_plaintext none)) in
      ground (arith, same, a, b, d, f, g, i, j, eq_refl exec_sig)

  smoke_steps_pass :
      (s : Session) (r : IsSmokeReady s)
      → (set_sig exec_sig : TxSig) × (w' : World Session) × (smoke_steps (demo_world s) ≡ (
        Errors.ok
            (record { set_sig = set_sig; exec_sig = exec_sig; timestamp = s.chain.unix_timestamp }),
        w',
      ))
  unfolding create_real_client lookup fresh_write
  smoke_steps_pass s r =
      let plan : RebalancePlan = half_plan (to_base58 r.set_up.found.0) in
      let (w1, sent, (a, p, located, stored, owned, holds), kept) =
        policy_stored deployment ids wallet (encrypt_threshold threshold_plaintext none)
          (demo_world s) r.set_up (encrypt_threshold_bytes threshold_plaintext none).0 in
      let here : a ≡ r.set_up.found = landed-injective (sym located ∙ r.set_up.located) in
      let o : IsOnline deployment ids plan w1 = record {
        ready = record {
          policy = r.set_up.found.0;
          program = deployment.swig_delegation_program;
          pda = r.pda;
          action_exit = refl;
          has_program = ap (λ (c : RealClient). c.swig_delegation) kept.same_client;
          program_set = r.same_swig;
          parsed = r.parsed;
          derived = r.derived;
        };
        same_program = r.same_swig;
        connected = kept.same_link ∙ r.set_up.connected;
      } in
      let rate =
        still_allowed s.chain w1.env.chain r.pda.0 kept.same_accounts
          (omega (arith, kept.same_clock)) r.rate in
      let empty : w1.client.write_cache ≡ [] =
        ap (λ (c : RealClient). c.write_cache) kept.same_client in
      let window : w1.client.write_throttle_ms ≡ 30000 =
        ap (λ (c : RealClient). c.write_throttle_ms) kept.same_client in
      let w2 : World Session =
        world_executed deployment ids wallet plan r.set_up.found.0 r.pda w1 in
      (
        deployment.signature s.chain.count,
        deployment.signature w1.env.chain.count,
        w2,
        smoke_steps_are (demo_world s) w1 w2 r.set_up.found r.pda p
              (record { timestamp = w1.env.chain.unix_timestamp; bump = r.pda.1 })
              (find_address deployment ids wallet r.set_up.found r.set_up.same_program
                r.set_up.located)
              sent o.connected
              (ap (λ (f : PublicKey × ℕ). w1.env.chain.policies f.0) (sym here) ∙ stored) holds
              r.derived
              (rebalance_executed deployment ids wallet plan w1 o (rw empty refl) rate
                (omega arith))
              o.connected (rw (==_refl r.pda.0) refl)
              (repeated deployment ids wallet 0 plan w1 o window (omega arith))
            ∙ ap
                (λ now. (
                  Errors.ok (record {
                    set_sig = deployment.signature s.chain.count;
                    exec_sig = deployment.signature w1.env.chain.count;
                    timestamp = now;
                  }),
                  w2,
                ))
                kept.same_clock,
      )

  -- On a cluster that is set up, with a wallet of at least 0.05 SOL, the script passes its three
  -- steps, and reads back the chain's time as the policy's last execution.
  pub smoke_realclient_passes :
      (s : Session) (lamports : ℕ)
      → IsSmokeReady s
      → min_balance ≤ lamports
      → (set_sig exec_sig : TxSig) × (w' : World Session) × (smoke_realclient (Errors.ok lamports) s
          ≡ (
            Errors.ok (record {
              set_sig = set_sig;
              exec_sig = exec_sig;
              timestamp = s.chain.unix_timestamp;
            }),
            w',
          ))
  unfolding smoke_realclient
  smoke_realclient_passes s lamports r enough =
      let (set_sig, exec_sig, w', passed) = smoke_steps_pass s r in
      (set_sig, exec_sig, w', ground (arith, r.set_up.same_program, r.same_swig, passed))
