-- ===== src/Client/Idempotency.antt =====
-- `executePrivateRebalance`: when a transaction is sent, what the caches become, and that a repeated
-- plan within the window gives the earlier signature and sends nothing.
use risk_claw_sol.Prelude.{
  ℕ, ◌+◌, ◌<◌, ◌≡◌, ◌≢◌, refl, ◌⊎◌, inl, inr, List, Option, none, some, String, arith, subst, sym,
  ap, ◌∙◌, lookup, insert, lookup-insert, lookup-insert_self, eq_iff, lt→ltb, Bool-cases,
  Option-cases, codes, contains_ci,
}
use mathlib.Core.Option
use risk_claw_sol.Types.{PublicKey, TxSig, RebalancePlan, exit}
use risk_claw_sol.Errors.{Outcome, ok, throws}
use risk_claw_sol.Ids.{Web3, Ids}
use risk_claw_sol.Client.Rebalance.{
  IsReady, cached_sig, rebalance_cached, rebalance_submitted, IsReady-cases,
}
use risk_claw_sol.Client.{
  Host, World, RealClient, WriteEntry, Reply, confirmed, rejected, fresh_write, rebalance_failed,
  rebalance_instruction, finish_rebalance, submit_rebalance, execute_private_rebalance,
}

-- What the client holds after a method, beside the write entry of one position.
pub record IsFrame (position_id : String) (c c' : RealClient) : Type 0 where
  pub same_swig : c'.swig_delegation ≡ c.swig_delegation
  pub same_policy : c'.risk_policy ≡ c.risk_policy
  pub same_write_throttle : c'.write_throttle_ms ≡ c.write_throttle_ms
  pub same_read_throttle : c'.read_throttle_ms ≡ c.read_throttle_ms
  pub same_reads : c'.read_cache ≡ c.read_cache
  pub other_writes :
      (k : String) → k ≢ position_id → lookup k c'.write_cache ≡ lookup k c.write_cache

IsFrame-refl : (k : String) (c : RealClient) → IsFrame k c c
IsFrame-refl k c = record {
  same_swig = refl;
  same_policy = refl;
  same_write_throttle = refl;
  same_read_throttle = refl;
  same_reads = refl;
  other_writes = λ j h. refl;
}

-- The entry behind a signature that a method gives out.
abbrev pub IsRecorded : String → TxSig → RealClient → Type 0
IsRecorded position_id sig c =
    (e : WriteEntry) × (lookup position_id c.write_cache ≡ some e) × (e.last_tx_sig ≡ sig)

-- By how a method ended: a signature is recorded, an exception leaves the client alone.
abbrev pub Ends : {E : Type 0} → String → RealClient → Outcome TxSig × World E → Type 0
Ends k c (ok sig, w) = IsFrame k c w.client × IsRecorded k sig w.client
Ends k c (throws t, w) = w.client ≡ c

remember-IsFrame :
    (k : String) (e : WriteEntry) (c : RealClient)
    → IsFrame k c (record c { write_cache = insert k e c.write_cache })
remember-IsFrame k e c = record {
  same_swig = refl;
  same_policy = refl;
  same_write_throttle = refl;
  same_read_throttle = refl;
  same_reads = refl;
  other_writes = λ j h. ground (arith, lookup-insert k j e c.write_cache, eq_iff k j);
}

failed-Ends :
    {E : Type 0} (plan : RebalancePlan) (msg : String) (w : World E) (o : Option WriteEntry)
    → lookup plan.position_id w.client.write_cache ≡ o
    → Ends plan.position_id w.client (rebalance_failed plan o msg, w)
unfolding rebalance_failed
failed-Ends plan msg w none h = refl
failed-Ends plan msg w (some e) h =
    elim (Bool-cases (contains_ci (codes "RebalanceTooSoon") (codes msg))) [
      | inl soon ↦ rw (soon) (IsFrame-refl plan.position_id w.client, (e, h, refl))
      | inr other ↦ rw (other) refl
    ]

module _ {E : Type 0} (host : Host E) where
  finish-Ends :
      (plan : RebalancePlan) (reply : Reply) (w : World E)
      → Ends plan.position_id w.client
          (finish_rebalance host plan (lookup plan.position_id w.client.write_cache) reply w)
  unfolding finish_rebalance
  finish-Ends plan (confirmed sig) w =
      let e : WriteEntry = record { last_tx_sig = sig; last_executed_at = host.date_now w.env } in
      (
        remember-IsFrame plan.position_id e w.client,
        (e, lookup-insert_self plan.position_id e w.client.write_cache, refl),
      )
  finish-Ends plan (rejected msg) w =
      failed-Ends plan msg w (lookup plan.position_id w.client.write_cache) refl

  submit-Ends :
      (plan : RebalancePlan) (policy : PublicKey) (w : World E)
      → Ends plan.position_id w.client
          (submit_rebalance host plan policy (lookup plan.position_id w.client.write_cache) w)
  unfolding submit_rebalance
  submit-Ends plan policy w =
      let (reply, env') = host.send (rebalance_instruction plan policy) w.env in
      finish-Ends plan reply (record w { env = env' })

module _ {E : Type 0} (host : Host E) where
  finish-env :
      (plan : RebalancePlan) (o : Option WriteEntry) (reply : Reply) (w : World E)
      → (finish_rebalance host plan o reply w).1.env ≡ w.env
  unfolding finish_rebalance
  finish-env plan o (confirmed sig) w = refl
  finish-env plan o (rejected msg) w = refl

  submit-env :
      (plan : RebalancePlan) (policy : PublicKey) (o : Option WriteEntry) (w : World E)
      → (submit_rebalance host plan policy o w).1.env
        ≡ (host.send (rebalance_instruction plan policy) w.env).1
  unfolding submit_rebalance
  submit-env plan policy o w =
      let (reply, env') = host.send (rebalance_instruction plan policy) w.env in
      finish-env plan o reply (record w { env = env' })

fresh_write-young :
    (window now : ℕ) (e : WriteEntry)
    → now < e.last_executed_at + window
    → fresh_write window now (some e) ≡ some e.last_tx_sig
unfolding fresh_write
fresh_write-young window now e h = rw (lt→ltb now (e.last_executed_at + window) h)

fresh_write-Recorded :
    (window now : ℕ) (k : String) (cache : List (String × WriteEntry)) {sig : TxSig}
    → fresh_write window now (lookup k cache) ≡ some sig
    → (e : WriteEntry) × (lookup k cache ≡ some e) × (e.last_tx_sig ≡ sig)
unfolding fresh_write
fresh_write-Recorded window now k cache h = elim (Option-cases (lookup k cache)) [
  | inl missing ↦ ground arith
  | inr (e, found) ↦ (e, found, ground arith)
]

module _ {E : Type 0} (host : Host E) (web3 : Web3) (ids : Ids) where
  -- A call that gives out a signature has it recorded for the position, and has changed nothing else
  -- of the client; a call that throws has not changed the client.
  pub execute_private_rebalance-Ends :
      (plan : RebalancePlan) (w : World E)
      → Ends plan.position_id w.client (execute_private_rebalance host web3 ids plan w)
  execute_private_rebalance-Ends plan w = elim (IsReady-cases host web3 ids plan w) [
    | inl (t, e) ↦ rw e refl
    | inr ready ↦ elim (Option-cases (cached_sig host web3 ids plan w)) [
      | inl stale ↦
          rw (rebalance_submitted host web3 ids plan w ready stale)
            (submit-Ends host plan ready.policy w)
      | inr (sig, fresh) ↦ rw (rebalance_cached host web3 ids plan w ready fresh) (
        IsFrame-refl plan.position_id w.client,
        fresh_write-Recorded w.client.write_throttle_ms (host.date_now w.env) plan.position_id
            w.client.write_cache fresh,
      )
    ]
  ]

  -- A call sends no transaction, or it passes every check, holds no fresh signature, and sends the
  -- plan's one transaction.
  pub execute_private_rebalance_sends :
      (plan : RebalancePlan) (w : World E)
      → ((execute_private_rebalance host web3 ids plan w).1.env ≡ w.env)
        ⊎ ((ready : IsReady web3 ids plan w.client) × (cached_sig host web3 ids plan w ≡ none)
            × ((execute_private_rebalance host web3 ids plan w).1.env
                ≡ (host.send (rebalance_instruction plan ready.policy) w.env).1))
  execute_private_rebalance_sends plan w = elim (IsReady-cases host web3 ids plan w) [
    | inl (t, e) ↦ inl (ap (λ r. r.1.env) e)
    | inr ready ↦ elim (Option-cases (cached_sig host web3 ids plan w)) [
      | inl stale ↦ inr (
        ready,
        stale,
        ap (λ r. r.1.env) (rebalance_submitted host web3 ids plan w ready stale)
            ∙ submit-env host plan ready.policy (lookup plan.position_id w.client.write_cache) w,
      )
      | inr (sig, fresh) ↦
          inl (ap (λ r. r.1.env) (rebalance_cached host web3 ids plan w ready fresh))
    ]
  ]

  IsReady-again :
      (plan again : RebalancePlan) (c c' : RealClient)
      → IsReady web3 ids plan c
      → IsFrame plan.position_id c c'
      → again.position_id ≡ plan.position_id
      → again.action ≡ exit
      → IsReady web3 ids again c'
  IsReady-again plan again c c' r f same is_exit = record {
    policy = r.policy;
    program = r.program;
    pda = r.pda;
    action_exit = is_exit;
    has_program = f.same_swig ∙ r.has_program;
    program_set = r.program_set;
    parsed = ap web3.new_public_key same ∙ r.parsed;
    derived = r.derived;
  }

  -- Once a call has given out a signature, any EXIT plan for the same position within the window of
  -- the recorded entry gets that signature, and neither the client nor the environment changes,
  -- whatever the environment has become in between.
  pub rebalance_repeated :
      (plan again : RebalancePlan) (w w' : World E) (later : E) {sig : TxSig} {e : WriteEntry}
      → execute_private_rebalance host web3 ids plan w ≡ (ok sig, w')
      → again.position_id ≡ plan.position_id
      → again.action ≡ exit
      → lookup plan.position_id w'.client.write_cache ≡ some e
      → host.date_now later < e.last_executed_at + w'.client.write_throttle_ms
      → execute_private_rebalance host web3 ids again (record w' { env = later })
        ≡ (ok sig, record w' { env = later })
  rebalance_repeated plan again w w' later {sig} {e} done same is_exit found young =
      elim (IsReady-cases host web3 ids plan w) [
        | inl (t, thrown) ↦ cc (thrown, done)
        | inr ready ↦
            let ends : Ends plan.position_id w.client (ok sig, w') =
              subst (Ends plan.position_id w.client) done (execute_private_rebalance-Ends plan w) in
            let again_ready =
              IsReady-again plan again w.client w'.client ready ends.0 same is_exit in
            let sig_eq : some e.last_tx_sig ≡ some sig =
              ap (Option.map (λ (x : WriteEntry). x.last_tx_sig)) (sym found ∙ (ends.1).1)
              ∙ ap some (ends.1).2 in
            rebalance_cached host web3 ids again (record w' { env = later }) again_ready
              (ap
                  (λ k.
                    fresh_write w'.client.write_throttle_ms (host.date_now later)
                      (lookup k w'.client.write_cache))
                  same
                ∙ ap (fresh_write w'.client.write_throttle_ms (host.date_now later)) found
                ∙ fresh_write-young w'.client.write_throttle_ms (host.date_now later) e young
                ∙ sig_eq)
      ]
