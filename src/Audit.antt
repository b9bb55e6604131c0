-- ===== src/Audit.antt =====
-- app/lib/audit.ts: the events of the audit trail, the generator of the demo's events, and the shortening
-- of signatures. Signatures are lists of character codes. `Math.random` is a parameter: a text for each
-- seed, and the rounded score of each minute's check before the breach is added. Times are naturals.
pub mod Order
pub mod Text
use risk_claw_sol.Prelude.{
  ℕ, zero, suc, ◌+◌, ◌-◌, ◌*◌, ◌/◌, ◌%◌, Bool, true, false, List, [], ◌∷◌, ◌++◌, String, leb, ltb,
  ◌==◌, if◌then◌else◌, length, take, drop, replicate, codes,
}
use risk_claw_sol.Types.{Zone, read, compute, execute}

pub record AgentIdentity : Type 0 where
  pub zone : Zone
  pub name : String
  pub pubkey : String
  pub core_mint : String

pub data AuditEvent : Type 0 where
  agent_registered : (ts : ℕ) (agent : AgentIdentity) → AuditEvent
  policy_set : (ts : ℕ) (policy_hash multisig signed_by : String) (tx_sig : List ℕ) → AuditEvent
  threshold_check :
      (ts : ℕ) (policy_hash : String) (breached : Bool) (score : ℕ) (analyst : String)
      (tx_sig : List ℕ)
      → AuditEvent
  rebalance_executed :
      (ts : ℕ) (policy_hash : String) (size_bps slippage_bps : ℕ) (guardian : String)
      (tx_sig : List ℕ)
      → AuditEvent

abbrev pub ts : AuditEvent → ℕ
ts (agent_registered t _) = t
ts (policy_set t _ _ _ _) = t
ts (threshold_check t _ _ _ _ _) = t
ts (rebalance_executed t _ _ _ _ _) = t

-- `DEMO_AGENTS`
abbrev pub observer : AgentIdentity
observer = record {
  zone = read;
  name = "Observer";
  pubkey = "Obs7HfXFqNcPgxnY8RqShK4HmoQYBcMx9LTuDUYpDQne";
  core_mint = "Mp1Core1Read1KTuRvUHxhzqBs2Lo4eFhyQX3K5n8mE7v";
}

abbrev pub analyst : AgentIdentity
analyst = record {
  zone = compute;
  name = "Analyst";
  pubkey = "Anlys9mKqcLvDz3xWsTpQbZf6HuWjY4N7sR8tJpV3CdH";
  core_mint = "Mp1Core1Cmpt1NhCmTYbjW2QqPp6kS8L4mUnXh3yZxA9d";
}

abbrev pub guardian : AgentIdentity
guardian = record {
  zone = execute;
  name = "Guardian";
  pubkey = "Grd1aN5tUz7HQpYuJ4xVeF8rW2Db6CMnLpKsRq3vEhBg";
  core_mint = "Mp1Core1Exec1Bz9LpWxRkV2yT7dF4gM5qH8jSnA6cE3K";
}

-- The signature of a seed, with the random text that is put after it; 95 is `_`, 120 is `x`.
unfoldable pub fake_sig : List ℕ → List ℕ → List ℕ
fake_sig seed random = let a = seed ++ (95 ∷ random) in take 88 (a ++ replicate (64 - length a) 120)

-- `s.slice(-tail)`: for `tail` 0 it is `s.slice(0)`.
abbrev slice_last : ℕ → List ℕ → List ℕ
slice_last tail s = if tail == 0 then s else drop (length s - tail) s

-- `shortenSig`; 8230 is the ellipsis.
unfoldable pub shorten_sig : List ℕ → ℕ → ℕ → List ℕ
shorten_sig s head tail =
    if leb (length s) (head + tail + 1) then s else take head s ++ (8230 ∷ slice_last tail s)

-- A number below 100, in decimal.
abbrev decimal : ℕ → List ℕ
decimal m = if ltb m 10 then (48 + m) ∷ [] else (48 + m / 10) ∷ (48 + m % 10) ∷ []

-- `events.sort((a, b) => b.ts - a.ts)`, which is stable: the latest first, equal ones as they were.
unfoldable pub insert_event : AuditEvent → List AuditEvent → List AuditEvent
insert_event e [] = e ∷ []
insert_event e (f ∷ fs) = if leb (ts f) (ts e) then e ∷ f ∷ fs else f ∷ insert_event e fs

unfoldable pub sort_events : List AuditEvent → List AuditEvent
unfolding insert_event
sort_events [] = []
sort_events (e ∷ es) = insert_event e (sort_events es)

module _ (random : List ℕ → List ℕ) (base_score : ℕ → ℕ) where
  abbrev fake : List ℕ → List ℕ
  fake seed = fake_sig seed (random seed)

  -- One round of the loop over the minutes.
  unfoldable pub check_events : ℕ → ℕ → List AuditEvent
  unfolding fake_sig
  check_events now m =
      let breached : Bool = m == 30 in
      let at : ℕ = now - m * 60 * 1000 in
      threshold_check at "0x9f3c…b27e" breached (base_score m + (if breached then 1500 else 0))
        analyst.pubkey (fake (codes "check-" ++ decimal m))
      ∷ (if breached
          then rebalance_executed (at + 1500) "0x9f3c…b27e" 10000 25 guardian.pubkey
              (fake (codes "exit"))
            ∷ []
          else [])

  -- `for (let m = 60; m >= 5; m -= 5)`, for `n` rounds that end with minute 5.
  unfoldable pub rounds : ℕ → ℕ → List AuditEvent
  unfolding check_events
  rounds now zero = []
  rounds now (suc n) = check_events now (5 * suc n) ++ rounds now n

  -- The events before they are sorted.
  unfoldable pub demo_events : ℕ → List AuditEvent
  unfolding rounds fake_sig
  demo_events now =
      let register_at : ℕ = now - 2 * 60 * 60 * 1000 in
      agent_registered register_at observer
      ∷ agent_registered (register_at + 30000) analyst
      ∷ agent_registered (register_at + 60000) guardian
      ∷ policy_set (now - 1 * 60 * 60 * 1000 - 45 * 60 * 1000) "0x9f3c…b27e"
          "MS9o5fZ8tKbqLp3rYxV2DnW7HuJqA4mC6kP1eR8gXt" "Vlt7hY4mLpXq9DrZb3KuTcF5gNs8RjW2eBmA6tH1xPy"
          (fake (codes "policy-set"))
      ∷ rounds now 12

  unfoldable pub generate_demo_events : ℕ → List AuditEvent
  unfolding demo_events sort_events
  generate_demo_events now = sort_events (demo_events now)
