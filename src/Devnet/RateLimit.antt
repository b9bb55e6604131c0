-- ===== src/Devnet/RateLimit.antt =====
-- The rate limit of `execute_rebalance` over any history of the chain: executions for one policy are
-- at least 30 seconds apart, whoever sends the transactions.
use risk_claw_sol.Prelude.{
  true, subst, ℕ, ◌+◌, ◌≤◌, ◌<◌, ◌≡◌, refl, inl, inr, List, [], ◌∷◌, some, arith, All, ◌==◌,
  Bool-cases, ==_iff, ap, sym, ◌∙◌,
}
use risk_claw_sol.Types.{PublicKey}
use risk_claw_sol.Programs.SwigDelegation.{
  LastRebalanced, RebalanceExecutedEvent, ExecuteRebalance, init_if_needed, rate_limit_secs,
}
use risk_claw_sol.Programs.SwigDelegation.Gates.{InWindow, IsAllowed}
use risk_claw_sol.Client.{Instruction, init_policy, update_policy, execute_rebalance}
use risk_claw_sol.Devnet.Execution.{
  SameRebalances, init_keeps, update_keeps, stored_or_new, execution_landed,
}
use risk_claw_sol.Devnet.{
  TxResult-cases, Deployment, Devnet, Accounts, landed, last_rebalanced_address, process, Activity,
  transaction, seconds, after, run, write_account,
}

-- Every earlier event of the same policy is at least the limit older.
abbrev pub Spaced : List RebalanceExecutedEvent → Type 0
Spaced [] = Unit
Spaced (e ∷ log) =
    All (λ old. (old.policy ≡ e.policy) → old.ts + rate_limit_secs ≤ e.ts) log × Spaced log

too_old :
    (ts now : ℕ) (lr : LastRebalanced)
    → ts ≤ lr.timestamp
    → 0 < ts
    → ¬ (InWindow now lr)
    → ts + rate_limit_secs ≤ now
too_old ts now lr known positive rate = ground arith

==-refl : (n : ℕ) → (n == n) ≡ true
==-refl n = (==_iff n n).1 refl

pub landed-injective : {A : Type 0} {a b : A} → landed a ≡ landed b → a ≡ b
landed-injective h = cc

module _ (deployment : Deployment) where
  -- The account that limits an event's policy knows of the event.
  pub record Covered (accounts : Accounts LastRebalanced) (now : ℕ) (ev : RebalanceExecutedEvent)
      : Type 0 where
    pub found : PublicKey × ℕ
    pub account : LastRebalanced
    pub located : last_rebalanced_address deployment ev.policy ≡ landed found
    pub stored : accounts (found.0) ≡ some account
    pub known : ev.ts ≤ account.timestamp
    pub past : account.timestamp ≤ now
    pub positive : 0 < ev.ts

  pub record IsLimited (d : Devnet) : Type 0 where
    pub clock : 0 < d.unix_timestamp
    pub spaced : Spaced d.events
    pub covered : All (Covered d.last_rebalanced d.unix_timestamp) d.events

  Covered-later :
      (accounts : Accounts LastRebalanced) (now n : ℕ) (log : List RebalanceExecutedEvent)
      → All (Covered accounts now) log
      → All (Covered accounts (now + n)) log
  Covered-later accounts now n [] h = tt
  Covered-later accounts now n (ev ∷ log) h = (
    record {
      found = h.0.found;
      account = h.0.account;
      located = h.0.located;
      stored = h.0.stored;
      known = h.0.known;
      past = omega (arith, h.0.past);
      positive = h.0.positive;
    },
    Covered-later accounts now n log h.1,
  )

  Covered-write_one :
      (accounts : Accounts LastRebalanced) (now k : ℕ) (lr : LastRebalanced)
      (ev : RebalanceExecutedEvent)
      → lr.timestamp ≡ now
      → Covered accounts now ev
      → Covered (write_account accounts k lr) now ev
  Covered-write_one accounts now k lr ev t c = elim (Bool-cases (c.found.0 == k)) [
    | inl same ↦ record {
      found = c.found;
      account = lr;
      located = c.located;
      stored = rw same refl;
      known = omega (arith, c.known, c.past);
      past = omega arith;
      positive = c.positive;
    }
    | inr other ↦ record {
      found = c.found;
      account = c.account;
      located = c.located;
      stored = rw other c.stored;
      known = c.known;
      past = c.past;
      positive = c.positive;
    }
  ]

  Covered-write :
      (accounts : Accounts LastRebalanced) (now k : ℕ) (lr : LastRebalanced)
      (log : List RebalanceExecutedEvent)
      → lr.timestamp ≡ now
      → All (Covered accounts now) log
      → All (Covered (write_account accounts k lr) now) log
  Covered-write accounts now k lr [] t h = tt
  Covered-write accounts now k lr (ev ∷ log) t h =
      (Covered-write_one accounts now k lr ev t h.0, Covered-write accounts now k lr log t h.1)

  older_by_limit :
      (x : ExecuteRebalance) (d : Devnet) (found : PublicKey × ℕ)
      (log : List RebalanceExecutedEvent)
      → last_rebalanced_address deployment x.policy ≡ landed found
      → IsAllowed x d.unix_timestamp (stored_or_new d found.0)
      → All (Covered d.last_rebalanced d.unix_timestamp) log
      → All (λ old. (old.policy ≡ x.policy) → old.ts + rate_limit_secs ≤ d.unix_timestamp) log
  older_by_limit x d found [] located allowed h = tt
  older_by_limit x d found (old ∷ log) located allowed h =
      (older old h.0, older_by_limit x d found log located allowed h.1)
    where
      older :
          (old : RebalanceExecutedEvent)
          → Covered d.last_rebalanced d.unix_timestamp old
          → old.policy ≡ x.policy
          → old.ts + rate_limit_secs ≤ d.unix_timestamp
      older old c same =
          let here : c.found ≡ found =
            landed-injective
              (sym c.located ∙ ap (last_rebalanced_address deployment) same ∙ located) in
          let account : d.last_rebalanced found.0 ≡ some c.account =
            ap (λ (f : PublicKey × ℕ). d.last_rebalanced f.0) (sym here) ∙ c.stored in
          let stored : stored_or_new d found.0 ≡ c.account = ap init_if_needed account in
          let rate : ¬ (InWindow d.unix_timestamp c.account) =
            subst (λ lr. ¬ (InWindow d.unix_timestamp lr)) stored allowed.rate in
          too_old old.ts d.unix_timestamp c.account c.known c.positive rate

  IsLimited-same : (d d' : Devnet) → SameRebalances d d' → IsLimited d → IsLimited d'
  IsLimited-same d d' (clock, accounts, log) l = record {
    clock = subst (λ n. 0 < n) (sym clock) l.clock;
    spaced = subst Spaced (sym log) l.spaced;
    covered =
        subst (λ v. All (Covered d'.last_rebalanced d'.unix_timestamp) v) (sym log)
          (subst (λ m. All (Covered m d'.unix_timestamp) d.events) (sym accounts)
            (subst (λ n. All (Covered d.last_rebalanced n) d.events) (sym clock) l.covered));
  }

  process-IsLimited :
      (wallet : PublicKey) (i : Instruction) (d d' : Devnet)
      → process deployment wallet i d ≡ landed d'
      → IsLimited d
      → IsLimited d'
  process-IsLimited wallet (init_policy ciphertext arcium vault) d d' h l =
      IsLimited-same d d' (init_keeps deployment wallet ciphertext arcium vault d d' h) l
  process-IsLimited wallet (update_policy ciphertext arcium vault) d d' h l =
      IsLimited-same d d' (update_keeps deployment wallet ciphertext arcium vault d d' h) l
  process-IsLimited wallet (execute_rebalance policy action size slippage expected min) d d' h l =
      let x : ExecuteRebalance = record {
        policy = policy;
        guardian_authority = wallet;
        action = action;
        size_bps = size;
        max_slippage_bps = slippage;
        expected_out = expected;
        min_out = min;
      } in
      let (found, located, allowed, is_after) = execution_landed deployment x d d' h in
      subst IsLimited (sym is_after) (record {
        clock = l.clock;
        spaced = (older_by_limit x d found d.events located allowed l.covered, l.spaced);
        covered = (
          record {
            found = found;
            account = record { timestamp = d.unix_timestamp; bump = found.1 };
            located = located;
            stored = rw (==-refl found.0) refl;
            known = omega arith;
            past = omega arith;
            positive = l.clock;
          },
          Covered-write d.last_rebalanced d.unix_timestamp found.0
              (record { timestamp = d.unix_timestamp; bump = found.1 }) d.events refl l.covered,
        );
      })

  step-IsLimited :
      (wallet : PublicKey) (i : Instruction) (d : Devnet)
      → IsLimited d
      → IsLimited (after (process deployment wallet i d) d)
  step-IsLimited wallet i d l = elim (TxResult-cases (process deployment wallet i d)) [
    | inl (e, refused) ↦ rw refused l
    | inr (d', done) ↦ rw done (process-IsLimited wallet i d d' done l)
  ]

  run-IsLimited :
      (history : List Activity) (d : Devnet) → IsLimited d → IsLimited (run deployment history d)
  unfolding run
  run-IsLimited [] d l = l
  run-IsLimited (transaction wallet i ∷ rest) d l =
      run-IsLimited rest (after (process deployment wallet i d) d) (step-IsLimited wallet i d l)
  run-IsLimited (seconds n ∷ rest) d l =
      run-IsLimited rest (record d { unix_timestamp = d.unix_timestamp + n })
        (record {
          clock = omega (arith, l.clock);
          spaced = l.spaced;
          covered = Covered-later d.last_rebalanced d.unix_timestamp n d.events l.covered;
        })

  -- From a chain with no executions yet and a clock past 0, whatever transactions any wallets send
  -- and however time passes, two executions for one policy are at least 30 seconds apart.
  pub rebalances-Spaced :
      (history : List Activity) (d : Devnet)
      → 0 < d.unix_timestamp
      → d.events ≡ []
      → Spaced (run deployment history d).events
  rebalances-Spaced history d clock empty =
      (run-IsLimited history d (record {
        clock = clock;
        spaced = subst Spaced (sym empty) tt;
        covered = subst (All (Covered d.last_rebalanced d.unix_timestamp)) (sym empty) tt;
      })).spaced
