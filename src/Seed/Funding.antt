-- ===== src/Seed/Funding.antt =====
-- A run of seed-demo.ts that passes: what it has done to the wallet, and that the first step of the
-- end-to-end script passes after it.
use risk_claw_sol.Prelude.{
  ℕ, ◌+◌, ◌≤◌, ◌<◌, ◌≡◌, refl, inl, inr, true, false, List, none, some, String, arith, leb,
  Bool-cases, ap, sym, subst, ◌∙◌, All,
}
use risk_claw_sol.Types.{PublicKey}
use risk_claw_sol.Errors.{ok, throws, Outcome-cases}
use risk_claw_sol.Config.{Config, AgentEntry}
use risk_claw_sol.Ids.{Web3, Ids, load_ids}
use risk_claw_sol.Client.{is_some, evaluate}
use risk_claw_sol.Smoke.{preconditions, metrics_of}
use risk_claw_sol.Seed.Process.{Call-cases}
use risk_claw_sol.Seed.{
  Faucet, WalletFile, TopUp, LadderLine, preflight, top_up_if_needed, request_airdrop,
  wallet_preflight, ladder, seed_demo, min_balance, lamports_per_sol,
}
use risk_claw_sol.Seed.Preflight.{preflight-load_ids, preflight-IsReady, IsReady, IsAgent}

-- Enough was there and nothing was done, or one SOL was asked for and the balance read again.
pub data Funded {E : Type 0} (faucet : Faucet E) (key : PublicKey) (e e' : E) (t : TopUp)
    : Type 0 where
  was_funded :
      t.airdropped ≡ false
      → min_balance ≤ t.before
      → t.after ≡ t.before
      → e' ≡ e
      → Funded faucet key e e' t
  was_topped_up :
      t.airdropped ≡ true
      → t.before < min_balance
      → faucet.airdrop key lamports_per_sol e ≡ (ok tt, e')
      → faucet.get_balance key e' ≡ ok t.after
      → Funded faucet key e e' t

module _ {E : Type 0} (faucet : Faucet E) where
  request_airdrop-ok :
      (key : PublicKey) (before : ℕ) (e e' : E) (t : TopUp)
      → request_airdrop faucet key before e ≡ (ok t, e')
      → (faucet.airdrop key lamports_per_sol e ≡ (ok tt, e'))
        × (faucet.get_balance key e' ≡ ok t.after)
        × (t.before ≡ before)
        × (t.airdropped ≡ true)
  unfolding request_airdrop
  request_airdrop-ok key before e e' t h =
      elim (Call-cases (faucet.airdrop key lamports_per_sol e)) [
        | inl (refusal, e1, declined) ↦ ground (arith, declined)
        | inr (_, e1, paid) ↦ elim (Outcome-cases (faucet.get_balance key e1)) [
          | inl (refusal, unread) ↦ ground (arith, paid, unread)
          | inr (after, read) ↦ (
            ground (arith, paid, read),
            ground (arith, paid, read),
            ground (arith, paid, read),
            ground (arith, paid, read),
          )
        ]
      ]

  top_up_if_needed-ok :
      (key : PublicKey) (e e' : E) (t : TopUp)
      → top_up_if_needed faucet key e ≡ (ok t, e')
      → (faucet.get_balance key e ≡ ok t.before) × Funded faucet key e e' t
  unfolding top_up_if_needed
  top_up_if_needed-ok key e e' t h = elim (Outcome-cases (faucet.get_balance key e)) [
    | inl (refusal, unread) ↦ ground (arith, unread)
    | inr (before, read) ↦ elim (Bool-cases (leb min_balance before)) [
      | inl enough ↦ (
        ground (arith, read, enough),
        was_funded (ground (arith, read, enough)) (ground (arith, read, enough))
            (ground (arith, read, enough)) (ground (arith, read, enough)),
      )
      | inr short ↦
          let requested : request_airdrop faucet key before e ≡ (ok t, e') =
            ground (arith, read, short) in
          let (paid, left, same, flag) = request_airdrop-ok key before e e' t requested in
          (read ∙ ap ok (sym same), was_topped_up flag (ground (arith, same, short)) paid left)
    ]
  ]

  wallet_preflight-ok :
      (file : WalletFile) (e e' : E) (t : TopUp)
      → wallet_preflight faucet file e ≡ (ok t, e')
      → (key : PublicKey) × (file ≡ some (ok key))
        × (faucet.get_balance key e ≡ ok t.before)
        × Funded faucet key e e' t
  unfolding wallet_preflight
  wallet_preflight-ok none e e' t h = cc (h)
  wallet_preflight-ok (some (throws refusal)) e e' t h = cc (h)
  wallet_preflight-ok (some (ok key)) e e' t h =
      let (read, funded) = top_up_if_needed-ok key e e' t h in (key, refl, read, funded)

  -- A run that passes has checked the configuration and read the key of the wallet's file; and either
  -- the wallet had at least 0.05 SOL and the cluster is as it was, or it had less, an airdrop of one
  -- SOL was confirmed, and the balance printed is the one read after it.
  pub seed_demo-ok :
      (web3 : Web3) (config : Config) (file : WalletFile) (e e' : E) (t : TopUp)
      (lines : List LadderLine)
      → seed_demo faucet web3 config file e ≡ (ok (t, lines), e')
      → (preflight web3 config ≡ ok tt)
        × (key : PublicKey) × (file ≡ some (ok key))
        × (faucet.get_balance key e ≡ ok t.before)
        × Funded faucet key e e' t
  unfolding seed_demo
  seed_demo-ok web3 config file e e' t lines h = elim (Outcome-cases (preflight web3 config)) [
    | inl (refusal, refused) ↦ ground (arith, refused)
    | inr (_, passed) ↦ elim (Call-cases (wallet_preflight faucet file e)) [
      | inl (refusal, e1, refused) ↦ ground (arith, passed, refused)
      | inr (t1, e1, checked) ↦
          let (key, there, read, funded) =
            wallet_preflight-ok file e e' t (ground (arith, passed, checked)) in
          (passed, key, there, read, funded)
    ]
  ]

  seed_demo-ladder :
      (web3 : Web3) (config : Config) (file : WalletFile) (e e' : E) (t : TopUp)
      (lines : List LadderLine)
      → seed_demo faucet web3 config file e ≡ (ok (t, lines), e')
      → lines ≡ ladder
  unfolding seed_demo
  seed_demo-ladder web3 config file e e' t lines h = elim (Outcome-cases (preflight web3 config)) [
    | inl (refusal, refused) ↦ ground (arith, refused)
    | inr (_, passed) ↦ elim (Call-cases (wallet_preflight faucet file e)) [
      | inl (refusal, e1, refused) ↦ ground (arith, passed, refused)
      | inr (t1, e1, checked) ↦ ground (arith, passed, checked)
    ]
  ]

  enough_after :
      (key : PublicKey) (e e' : E) (t : TopUp)
      → ((before amount : ℕ) (s s' : E)
          → faucet.get_balance key s ≡ ok before
          → faucet.airdrop key amount s ≡ (ok tt, s')
          → faucet.get_balance key s' ≡ ok (before + amount))
      → faucet.get_balance key e ≡ ok t.before
      → Funded faucet key e e' t
      → (lamports : ℕ) × (faucet.get_balance key e' ≡ ok lamports) × (min_balance ≤ lamports)
  enough_after key e e' t adds read (was_funded flag enough same still) =
      (t.before, ap (faucet.get_balance key) still ∙ read, enough)
  enough_after key e e' t adds read (was_topped_up flag short paid left) =
      (t.before + lamports_per_sol, adds t.before lamports_per_sol e e' read paid, omega arith)

preconditions_pass :
    (ids : Ids) (agents : List (String × AgentEntry)) (web3 : Web3) (lamports : ℕ)
    → is_some ids.risk_policy_program_id ≡ true
    → is_some ids.swig_delegation_program_id ≡ true
    → is_some ids.dev_multisig ≡ true
    → IsAgent web3 agents "read"
    → IsAgent web3 agents "compute"
    → IsAgent web3 agents "execute"
    → min_balance ≤ lamports
    → preconditions ids agents (ok lamports) ≡ ok tt
unfolding preconditions
preconditions_pass ids agents web3 lamports a b c observer analyst guardian enough =
    ground (arith, observer.there, analyst.there, guardian.there)

-- What the script prints of a stage agrees with the client's check of the stage's metrics.
abbrev pub Agrees : LadderLine → Type 0
Agrees line =
    (id : String) (now : ℕ) → line.breach ≡ (evaluate (metrics_of id line.stage now)).breached

ladder-Agrees : All Agrees ladder
unfolding ladder evaluate
ladder-Agrees = (λ id now. refl, (λ id now. refl, tt))

-- An airdrop that is confirmed adds its amount to the balance, and the configuration names a Squads
-- program. If seed-demo.ts passes, then the client's module loads, the first step of e2e-smoke.ts
-- passes with the wallet's balance after the run, and each line of the printed ladder tells what the
-- client's check answers for its stage.
pub seed_demo_prepares :
    {E : Type 0} (faucet : Faucet E) (web3 : Web3) (config : Config) (file : WalletFile)
    (squads : PublicKey) (e e' : E) (t : TopUp) (lines : List LadderLine)
    → ((key : PublicKey) (before amount : ℕ) (s s' : E)
        → faucet.get_balance key s ≡ ok before
        → faucet.airdrop key amount s ≡ (ok tt, s')
        → faucet.get_balance key s' ≡ ok (before + amount))
    → web3.new_public_key config.squads_v4_program_id ≡ ok squads
    → seed_demo faucet web3 config file e ≡ (ok (t, lines), e')
    → (ids : Ids) × (load_ids web3 config ≡ ok ids)
      × (key : PublicKey) × (file ≡ some (ok key))
      × (preconditions ids config.devnet_agents (faucet.get_balance key e') ≡ ok tt)
      × All Agrees lines
seed_demo_prepares faucet web3 config file squads e e' t lines adds parsed h =
    let (passed, key, there, read, funded) = seed_demo-ok faucet web3 config file e e' t lines h in
    let r : IsReady web3 config = preflight-IsReady web3 config passed in
    let (ids, loaded, a, b, c) = preflight-load_ids web3 config squads passed parsed in
    let (lamports, left, enough) = enough_after faucet key e e' t (adds key) read funded in
    (
      ids,
      loaded,
      key,
      there,
      ap (preconditions ids config.devnet_agents) left
          ∙ preconditions_pass ids config.devnet_agents web3 lamports a b c r.observer r.analyst
              r.guardian enough,
      subst (All Agrees) (sym (seed_demo-ladder faucet web3 config file e e' t lines h))
          ladder-Agrees,
    )
