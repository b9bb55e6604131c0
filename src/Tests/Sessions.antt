-- ===== src/Tests/Sessions.antt =====
-- A client on the cluster.
use risk_claw_sol.Prelude.{ℕ, ◌≡◌, refl, arith, none, some, lookup}
use risk_claw_sol.Prelude.Int.{pos}
use risk_claw_sol.Types.{PublicKey}
use risk_claw_sol.Errors.{ok, throws}
use risk_claw_sol.Encrypt.{encrypt_threshold, test_decrypt_placeholder}
use risk_claw_sol.Programs.RiskPolicy.{RiskPolicy}
use risk_claw_sol.Client.{
  World, set_encrypted_policy, execute_private_rebalance, submit_rebalance, fresh_write,
}
use risk_claw_sol.Devnet.{landed, policy_address}
use risk_claw_sol.Session.{Session, session_host}
use risk_claw_sol.Session.Policy.{IsSetUp, threshold_stored}
use risk_claw_sol.Session.Rebalance.{IsOnline, world_executed, rebalance_executed}
use risk_claw_sol.Session.Window.{
  NamesErrors, rejected_too_soon, rebalance_within_window, overlapping_call_throws,
}
use risk_claw_sol.Tests.Fixture.{deployment, ids, wallet, world, plan, chain}

pub nothing_stored : (p : RiskPolicy) → ¬ (none ≡ some p)
nothing_stored p h = cc

abbrev pub set_up : IsSetUp deployment ids wallet world
set_up = record {
  found = (7001, 254);
  has_program = refl;
  same_program = refl;
  located = refl;
  connected = refl;
  no_other = refl;
  own_address = λ p h. absurd (nothing_stored p h);
}

threshold_stored_example :
    (w' : World Session) × (p : RiskPolicy) × (a : PublicKey × ℕ) × (set_encrypted_policy
        (session_host deployment wallet)
        deployment.web3
        ids
        wallet
        (encrypt_threshold (pos 9000) none)
        world
      ≡ (ok "5first", w'))
    × (policy_address deployment wallet ≡ landed a)
    × (w'.env.chain.policies a.0 ≡ some p)
    × (p.owning_multisig_vault ≡ wallet)
    × (test_decrypt_placeholder p.ciphertext_ref ≡ ok 9000)
threshold_stored_example = threshold_stored deployment ids wallet (pos 9000) none world set_up

-- "pos" as a number, and its limiting account.
abbrev pub online : IsOnline deployment ids plan world
online = record {
  ready = record {
    policy = 7565168;
    program = 2;
    pda = (7565168002, 254);
    action_exit = refl;
    has_program = refl;
    program_set = refl;
    parsed = refl;
    derived = refl;
  };
  same_program = refl;
  connected = refl;
}

abbrev pub names_errors : NamesErrors deployment
names_errors = record { too_soon = refl; too_soon_not_slippage = refl; too_soon_not_missing = refl }

rebalance_executed_example :
    execute_private_rebalance (session_host deployment wallet) deployment.web3 ids plan world
    ≡ (ok "5first", world_executed deployment ids wallet plan 7565168 (7565168002, 254) world)
unfolding fresh_write lookup
rebalance_executed_example =
    rebalance_executed deployment ids wallet plan world online refl (omega arith) (omega arith)

-- The limiting account was stamped 20 seconds ago, and the client has no signature.
abbrev stamped_world : World Session
stamped_world = record world {
  env = record (world.env) {
    chain = record chain { last_rebalanced = λ a. some (record { timestamp = 980; bump = 254 }) };
  };
}

abbrev online_stamped : IsOnline deployment ids plan stamped_world
online_stamped = record { ready = online.ready; same_program = refl; connected = refl }

rebalance_within_window_example :
    execute_private_rebalance
      (session_host deployment wallet)
      deployment.web3
      ids
      plan
      stamped_world
    ≡ (throws (rejected_too_soon deployment), stamped_world)
unfolding fresh_write lookup
rebalance_within_window_example =
    rebalance_within_window deployment ids wallet plan stamped_world online_stamped names_errors
      refl (omega arith)

overlapping_call_throws_example :
    let w' =
      (execute_private_rebalance
        (session_host deployment wallet)
        deployment.web3
        ids
        plan
        world).1 in
    (submit_rebalance (session_host deployment wallet) plan 7565168 none w'
      ≡ (throws (rejected_too_soon deployment), w'))
    × (lookup "pos" w'.client.write_cache
        ≡ some (record { last_tx_sig = "5first"; last_executed_at = 1000000 }))
unfolding fresh_write lookup
overlapping_call_throws_example =
    overlapping_call_throws deployment ids wallet plan world online names_errors (omega arith) refl
      refl (omega arith) (omega arith)
