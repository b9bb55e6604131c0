-- ===== src/Smoke.antt =====
-- scripts/demo-state.ts, scripts/e2e-smoke.ts and scripts/smoke-realclient.ts: the demo's walk through
-- the client, on the cluster of `Session`. An exit of the process is a throw here. `to_base58` is
-- web3.js's, and `heard` is what Anchor's event listener has delivered since its subscription.
mod Parts
pub mod Steps
pub mod Rebalance
pub mod Run
pub mod RealClient
unfoldable pub use Parts.*
use risk_claw_sol.Prelude.{
  ℕ, zero, suc, ◌+◌, ◌/◌, Bool, true, false, not, ◌&&◌, ◌||◌, List, [], ◌∷◌, Option, none, some,
  String, ltb, leb, ◌==◌, ◌is◌, if◌then◌else◌, lookup, take, drop, codes,
}
use risk_claw_sol.Prelude.Int.{ℤ, pos}
use risk_claw_sol.Types.{
  PublicKey, TxSig, Action, RebalancePlan, PositionMetrics, ThresholdCheckResult, DelegationPolicy,
}
use risk_claw_sol.Errors
use risk_claw_sol.Errors.{Thrown, ErrorClass, error, Outcome}
use risk_claw_sol.Encrypt.{encrypt_threshold, stub_tag, Uint8Array}
use risk_claw_sol.Config.{AgentEntry}
use risk_claw_sol.Ids.{Ids, AgentRegistryEntry, derive_risk_policy_pda, derive_last_rebalanced_pda}
use risk_claw_sol.Programs.SwigDelegation.{RebalanceExecutedEvent}
use risk_claw_sol.Client.{
  World, Call, ◌>>=◌, ◌>>◌, pure, throw, throw_if, lift, date_now, is_some, CreateRealClientOpts,
  create_real_client, check_threshold_breach, set_encrypted_policy, execute_private_rebalance,
  delegate_to_guardian,
}
use risk_claw_sol.Devnet.{Deployment}
use risk_claw_sol.Session.{Session, session_host, up, down, unconfirmed}

module _ (deployment : Deployment) (ids : Ids) (wallet : PublicKey) where
  -- Steps 4 to 6: calm, breach, and the cached answer.
  unfoldable pub check_steps : ℕ → String → Call Session ThresholdCheckResult
  check_steps pace_ms id = do
    now4 ← date_now (session_host deployment wallet)
    r4 ← check_threshold_breach (session_host deployment wallet) id (metrics_of id low_stage now4)
    throw_if r4.breached (error "step 4: expected breached=false")
    pace pace_ms
    sleep 5200
    now5 ← date_now (session_host deployment wallet)
    r5 ← check_threshold_breach (session_host deployment wallet) id (metrics_of id high_stage now5)
    throw_if (not r5.breached) (error "step 5: expected breached=true")
    pace pace_ms
    now6 ← date_now (session_host deployment wallet)
    r6 ←
        check_threshold_breach (session_host deployment wallet) id
          (metrics_of id ignored_stage now6)
    throw_if (not (same_result r6 r5)) (error "step 6: FR-5b broken")
    pace pace_ms
    pure r5

  module _ (to_base58 : PublicKey → String)
      (heard : List RebalanceExecutedEvent → Session → Option RebalanceExecutedEvent) where
    -- `for (let i = 0; i < n && !capturedEvent; i++) await … 500 ms`, then the event, if there is one.
    unfoldable pub wait_event :
        ℕ → List RebalanceExecutedEvent → Call Session (Option RebalanceExecutedEvent)
    wait_event zero before w = (Errors.ok (heard before w.env), w)
    wait_event (suc n) before w = elim (heard before w.env) [
      | some event ↦ (Errors.ok (some event), w)
      | none ↦ wait_event n before (record w { env = elapse 500 w.env })
    ]

    -- The end of step 7, by what the listener has captured.
    abbrev check_event : PublicKey → Option RebalanceExecutedEvent → Call Session (Unit {0})
    check_event policy none = throw (error "step 7: RebalanceExecutedEvent never fired within 5s")
    check_event policy (some event) =
        throw_if (not (to_base58 event.policy is to_base58 policy))
          (error "step 7: event policy mismatch")

    -- Steps 7 and 8: the transaction with its event, and the repeated call.
    unfoldable pub rebalance_steps :
        ℕ → PublicKey → List RebalanceExecutedEvent → Call Session TxSig
    unfolding wait_event
    rebalance_steps pace_ms policy before = do
      exec_sig ←
          execute_private_rebalance (session_host deployment wallet) deployment.web3 ids
            (demo_plan (to_base58 policy))
      captured ← wait_event 10 before
      check_event policy captured
      pace pace_ms
      sig2 ←
          execute_private_rebalance (session_host deployment wallet) deployment.web3 ids
            (demo_plan (to_base58 policy))
      throw_if (not (sig2 is exec_sig)) (error "step 8: expected prior TxSig")
      pace pace_ms
      pure exec_sig

    -- Steps 2 to 9, with the client that the script has made.
    unfoldable pub demo_steps : ℕ → Call Session Summary
    unfolding check_steps rebalance_steps
    demo_steps pace_ms = do
      let ciphertext = encrypt_threshold threshold_plaintext none
      throw_if (not (same_bytes (take 16 (drop 48 ciphertext)) (codes "RISKCLAW_V1_STUB")))
          (error "step 2: expected RISKCLAW_V1_STUB tag")
      set_sig ←
          set_encrypted_policy (session_host deployment wallet) deployment.web3 ids wallet
            ciphertext
      found ← lift (derive_risk_policy_pda deployment.web3 ids wallet)
      pace pace_ms
      before ← chain_events
      pace pace_ms
      check_steps pace_ms (to_base58 found.0)
      exec_sig ← rebalance_steps pace_ms found.0 before
      now9 ← date_now (session_host deployment wallet)
      expected ← attempt (
          delegate_to_guardian wallet wallet (record {
            max_notional_usd = 10000;
            allowed_instruments = [];
            max_slippage_bps = 100;
            expires_at_unix = now9 / 1000 + 3600;
          }))
      throw_if (not expected) (error "step 9: expected NotImplementedError")
      pure (record { set_sig = set_sig; exec_sig = exec_sig; policy_pda = found.0 })

    -- `main`
    unfoldable pub e2e_smoke :
        ℕ → List (String × AgentEntry) → Outcome ℕ → Session → Outcome Summary × World Session
    unfolding preconditions demo_steps
    e2e_smoke pace_ms agents balance s =
        (lift (preconditions ids agents balance) >> pace pace_ms >> demo_steps pace_ms)
          (record { client = create_real_client script_opts; env = s })
