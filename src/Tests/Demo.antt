-- ===== src/Tests/Demo.antt =====
-- The demo on a new cluster.
use risk_claw_sol.Prelude.{lookup, ◌≡◌, refl, arith, List, [], ◌∷◌, Option, none, some, String}
use risk_claw_sol.Types.{PublicKey, TxSig}
use risk_claw_sol.Errors.{ok}
use risk_claw_sol.Config.{AgentEntry}
use risk_claw_sol.Programs.SwigDelegation.{RebalanceExecutedEvent}
use risk_claw_sol.Programs.RiskPolicy.{RiskPolicy}
use risk_claw_sol.Client.{World, create_real_client}
use risk_claw_sol.Devnet.{Deployment}
use risk_claw_sol.Session.{Session}
use risk_claw_sol.Smoke.{e2e_smoke}
use risk_claw_sol.Smoke.Rebalance.{Delivers}
use risk_claw_sol.Smoke.Run.{IsDemoReady, e2e_smoke_passes}
use risk_claw_sol.Smoke.RealClient.{IsSmokeReady, smoke_realclient, smoke_realclient_passes}
use risk_claw_sol.Tests.Fixture.{deployment, web3, ids, wallet, world}

-- A library that reads every address as the policy's.
abbrev demo_deployment : Deployment
demo_deployment = record deployment { web3 = record web3 { new_public_key = λ s. ok 7001 } }

abbrev to_base58 : PublicKey → String
to_base58 k = "pda"

abbrev latest : List RebalanceExecutedEvent → Option RebalanceExecutedEvent
latest [] = none
latest (event ∷ rest) = some event

abbrev heard : List RebalanceExecutedEvent → Session → Option RebalanceExecutedEvent
heard before s = latest s.chain.events

heard-Delivers : Delivers heard
heard-Delivers before event s logged = rw logged refl

abbrev entry : AgentEntry
entry = record { mint = "mint"; pubkey = "key"; name = "agent" }

abbrev agents : List (String × AgentEntry)
agents = ("read", entry) ∷ ("compute", entry) ∷ ("execute", entry) ∷ []

none_stored : (p : RiskPolicy) → ¬ (none ≡ some p)
none_stored p h = cc

abbrev demo_ready : IsDemoReady demo_deployment ids wallet to_base58 heard agents world.env
unfolding create_real_client lookup
demo_ready = record {
  set_up = record {
    found = (7001, 254);
    has_program = refl;
    same_program = refl;
    located = refl;
    connected = refl;
    no_other = refl;
    own_address = λ p h. absurd (none_stored p h);
  };
  multisig = 7;
  multisig_set = refl;
  read_agent = refl;
  compute_agent = refl;
  execute_agent = refl;
  pda = (7001002, 254);
  same_swig = refl;
  derived = refl;
  rate = omega arith;
  parsed = refl;
}

e2e_smoke_passes_example :
    (set_sig exec_sig : TxSig) × (w' : World Session) × (e2e_smoke demo_deployment ids wallet
        to_base58 heard 800 agents
        (ok 50000000)
        world.env
      ≡ (
        ok (record {
          set_sig = set_sig;
          exec_sig = exec_sig;
          policy_pda = demo_ready.set_up.found.0;
        }),
        w',
      ))
e2e_smoke_passes_example =
    e2e_smoke_passes demo_deployment ids wallet to_base58 heard agents world.env 800 50000000
      demo_ready heard-Delivers (omega arith) (omega arith)

abbrev smoke_ready : IsSmokeReady demo_deployment ids wallet to_base58 world.env
unfolding create_real_client lookup demo_ready
smoke_ready = record {
  set_up = demo_ready.set_up;
  pda = (7001002, 254);
  same_swig = refl;
  derived = refl;
  rate = omega arith;
  parsed = refl;
}

smoke_realclient_passes_example :
    (set_sig exec_sig : TxSig) × (w' : World Session) × (smoke_realclient demo_deployment ids wallet
        to_base58
        (ok 50000000)
        world.env
      ≡ (ok (record { set_sig = set_sig; exec_sig = exec_sig; timestamp = 1000 }), w'))
smoke_realclient_passes_example =
    smoke_realclient_passes demo_deployment ids wallet to_base58 world.env 50000000 smoke_ready
      (omega arith)
