-- ===== src/Tests/Scripts.antt =====
-- The operator's scripts at work: the demo's preflight, the multisig, and a deployment.
use risk_claw_sol.Prelude.{
  [], ℕ, suc, ◌+◌, ◌≤◌, ◌≡◌, refl, arith, true, All, none, some, ◌is◌, if◌then◌else◌, lookup,
}
use risk_claw_sol.Types.{PublicKey}
use risk_claw_sol.Errors.{ok, throws, error}
use risk_claw_sol.Config.{devnet, devnet_agents}
use risk_claw_sol.Ids.{Web3, Ids, load_ids}
use risk_claw_sol.Smoke.{preconditions}
use risk_claw_sol.Seed.{
  Faucet, TopUp, WalletFile, seed_demo, preflight, ladder, wallet_preflight, top_up_if_needed,
  request_airdrop, check_populated, check_agent, parse_agent,
}
use risk_claw_sol.Seed.Funding.{Agrees, seed_demo_prepares}
use risk_claw_sol.Multisig.{Squads, create_multisig, create}
use risk_claw_sol.Multisig.Runs.{IsCreated, create_multisig-IsCreated}
use risk_claw_sol.Deploy.{Machine, Outside}

-- Every text is an address; the cluster is the wallet's balance.
abbrev web3 : Web3
web3 = record {
  new_public_key = λ s. ok 5;
  find_program_address = λ seeds program. ok (program, 255);
}

abbrev faucet : Faucet ℕ
faucet = record {
  get_balance = λ key lamports. ok lamports;
  airdrop = λ key amount lamports. (ok tt, lamports + amount);
}

faucet_adds :
    (key : PublicKey) (before amount s s' : ℕ)
    → faucet.get_balance key s ≡ ok before
    → faucet.airdrop key amount s ≡ (ok tt, s')
    → faucet.get_balance key s' ≡ ok (before + amount)
faucet_adds key before amount s s' read paid = ground arith

abbrev topped_up : TopUp
topped_up = record { before = 2000; after = 1000002000; airdropped = true }

seeded : seed_demo faucet web3 devnet (some (ok 7)) 2000 ≡ (ok (topped_up, ladder), 1000002000)
unfolding seed_demo preflight check_populated check_agent parse_agent wallet_preflight
    top_up_if_needed request_airdrop lookup
seeded = refl

seed_demo_prepares_example :
    (ids : Ids) × (load_ids web3 devnet ≡ ok ids)
    × (key : PublicKey) × (◌≡◌ {A = WalletFile} (some (ok 7)) (some (ok key)))
    × (preconditions ids devnet_agents (ok 1000002000) ≡ ok tt)
    × All Agrees ladder
seed_demo_prepares_example =
    seed_demo_prepares faucet web3 devnet (some (ok 7)) 5 2000 1000002000 topped_up ladder
      faucet_adds refl seeded

-- The cluster counts the keys that were generated.
abbrev squads : Squads ℕ
squads = record {
  get_balance = λ key count. ok 100000000;
  generate = λ count. (count, suc count);
  get_multisig_pda = λ key. ok (key + 1000);
  config_treasury = λ count. ok 9;
  multisig_create = λ args count. (ok "5created", count);
}

first_run :
    create_multisig squads (some (ok 7)) 3
    ≡ (ok (record { multisig_pda = 1003; sig = "5created" }), 4)
unfolding create_multisig create
first_run = refl

second_run :
    create_multisig squads (some (ok 7)) 4
    ≡ (ok (record { multisig_pda = 1004; sig = "5created" }), 5)
unfolding create_multisig create
second_run = refl

create_multisig-IsCreated_example :
    (creator : PublicKey) × (balance : ℕ) × (◌≡◌ {A = WalletFile} (some (ok 7)) (some (ok creator)))
    × (squads.get_balance creator 3 ≡ ok balance)
    × (100000000 ≤ balance)
    × IsCreated squads creator 3 4 (record { multisig_pda = 1003; sig = "5created" })
create_multisig-IsCreated_example =
    create_multisig-IsCreated squads (some (ok 7)) 3 4
      (record { multisig_pda = 1003; sig = "5created" }) first_run

abbrev machine : Machine
machine = record {
  config = record { risk_policy = some none; swig_delegation = some none };
  ran = [];
  writes = 0;
}

-- The third command fails.
abbrev broken : Outside
broken = record {
  exec = λ command. if command is "anchor keys sync" then throws (error "exit 1") else ok tt;
  has_keypair = λ file. true;
  keypair_pubkey = λ file. ok "key";
  has_wallet = true;
  get_balance = ok 3000000000;
}
