-- ===== src/App/Trail/Spacing.antt =====
-- The audit page on the cluster: the rate limit of the program as it shows in the table.
use risk_claw_sol.Prelude.{
  ◌+◌, ◌≤◌, ◌<◌, ◌≡◌, ◌⊎◌, inl, inr, List, [], ◌∷◌, map, All, Option, none, some, String, arith,
  subst, sym, ◌∙◌, Bool-cases, leb, some_path,
}
use risk_claw_sol.Types.{PublicKey}
use risk_claw_sol.Programs.SwigDelegation.{RebalanceExecutedEvent, rate_limit_secs}
use risk_claw_sol.Audit.{
  AuditEvent, ts, rebalance_executed, agent_registered, policy_set, threshold_check, insert_event,
  sort_events,
}
use risk_claw_sol.Devnet.{Deployment, Devnet, Activity, run}
use risk_claw_sol.Devnet.RateLimit.{Spaced, rebalances-Spaced}
use risk_claw_sol.App.Trail.{row_of, displayed}
use risk_claw_sol.App.Trail.Heard.{
  Life, renders, unmounts, emits, connected, heard, after, after-events,
}

-- The policy of a row that the table shows.
abbrev pub policy_of : AuditEvent → Option String
policy_of (rebalance_executed _ policy _ _ _ _) = some policy
policy_of (agent_registered _ _) = none
policy_of (policy_set _ _ _ _ _) = none
policy_of (threshold_check _ _ _ _ _ _) = none

-- Rows of one policy are 30 seconds apart; times of rows are in milliseconds.
abbrev pub Apart : AuditEvent → AuditEvent → Type 0
Apart e f =
    (policy : String)
    → policy_of e ≡ some policy
    → policy_of f ≡ some policy
    → (ts e + 30000 ≤ ts f) ⊎ (ts f + 30000 ≤ ts e)

abbrev pub IsApart : List AuditEvent → Type 0
IsApart [] = Unit
IsApart (e ∷ es) = All (Apart e) es × IsApart es

Apart-sym : (e f : AuditEvent) → Apart e f → Apart f e
Apart-sym e f apart policy pf pe = elim (apart policy pe pf) [ inl h ↦ inr h | inr h ↦ inl h ]

All-Apart-insert_event :
    (g e : AuditEvent) (es : List AuditEvent)
    → Apart g e
    → All (Apart g) es
    → All (Apart g) (insert_event e es)
unfolding insert_event
All-Apart-insert_event g e [] h all = (h, tt)
All-Apart-insert_event g e (f ∷ fs) h all = elim (Bool-cases (leb (ts f) (ts e))) [
  | inl here ↦ rw here (h, all)
  | inr later ↦ rw later (all.0, All-Apart-insert_event g e fs h all.1)
]

insert_event-IsApart :
    (e : AuditEvent) (es : List AuditEvent)
    → All (Apart e) es
    → IsApart es
    → IsApart (insert_event e es)
unfolding insert_event
insert_event-IsApart e [] all apart = (tt, tt)
insert_event-IsApart e (f ∷ fs) all apart = elim (Bool-cases (leb (ts f) (ts e))) [
  | inl here ↦ rw here (all, apart)
  | inr later ↦ rw later (
    All-Apart-insert_event f e fs (Apart-sym e f all.0) apart.0,
    insert_event-IsApart e fs all.1 apart.1,
  )
]

All-Apart-sort_events :
    (g : AuditEvent) (es : List AuditEvent) → All (Apart g) es → All (Apart g) (sort_events es)
unfolding sort_events
All-Apart-sort_events g [] all = tt
All-Apart-sort_events g (e ∷ es) all =
    All-Apart-insert_event g e (sort_events es) all.0 (All-Apart-sort_events g es all.1)

sort_events-IsApart : (es : List AuditEvent) → IsApart es → IsApart (sort_events es)
unfolding sort_events
sort_events-IsApart [] apart = tt
sort_events-IsApart (e ∷ es) apart =
    insert_event-IsApart e (sort_events es) (All-Apart-sort_events e es apart.0)
      (sort_events-IsApart es apart.1)

-- Every event that the program has emitted, the latest first.
abbrev pub emitted : List Life → List RebalanceExecutedEvent
emitted [] = []
emitted (renders wallet connection ∷ before) = emitted before
emitted (unmounts ∷ before) = emitted before
emitted (emits e ∷ before) = e ∷ emitted before

All-heard :
    (P : RebalanceExecutedEvent → Type 0) (life : List Life)
    → All P (emitted life)
    → All P (heard life)
All-heard P [] all = tt
All-heard P (renders wallet connection ∷ before) all = All-heard P before all
All-heard P (unmounts ∷ before) all = All-heard P before all
All-heard P (emits e ∷ before) all = elim (Bool-cases (connected before)) [
  | inl on ↦ rw on (all.0, All-heard P before all.1)
  | inr off ↦ rw off (All-heard P before all.1)
]

Spaced-heard : (life : List Life) → Spaced (emitted life) → Spaced (heard life)
Spaced-heard [] spaced = tt
Spaced-heard (renders wallet connection ∷ before) spaced = Spaced-heard before spaced
Spaced-heard (unmounts ∷ before) spaced = Spaced-heard before spaced
Spaced-heard (emits e ∷ before) spaced = elim (Bool-cases (connected before)) [
  | inl on ↦ rw on (All-heard _ before spaced.0, Spaced-heard before spaced.1)
  | inr off ↦ rw off (Spaced-heard before spaced.1)
]

module _ (to_base58 : PublicKey → String)
    (injective : (a b : PublicKey) → to_base58 a ≡ to_base58 b → a ≡ b) where
  row-Apart :
      (e old : RebalanceExecutedEvent)
      → ((old.policy ≡ e.policy) → old.ts + rate_limit_secs ≤ e.ts)
      → Apart (row_of to_base58 e) (row_of to_base58 old)
  row-Apart e old spaced policy pe po =
      let same = injective old.policy e.policy (some_path (po ∙ sym pe)) in
      inr (omega (arith, spaced same))

  rows-Apart :
      (e : RebalanceExecutedEvent) (log : List RebalanceExecutedEvent)
      → All (λ old. (old.policy ≡ e.policy) → old.ts + rate_limit_secs ≤ e.ts) log
      → All (Apart (row_of to_base58 e)) (map (row_of to_base58) log)
  rows-Apart e [] all = tt
  rows-Apart e (old ∷ log) all = (row-Apart e old all.0, rows-Apart e log all.1)

  rows-IsApart :
      (log : List RebalanceExecutedEvent) → Spaced log → IsApart (map (row_of to_base58) log)
  rows-IsApart [] spaced = tt
  rows-IsApart (e ∷ log) spaced = (rows-Apart e log spaced.0, rows-IsApart log spaced.1)

  -- Keys with different texts are different keys. If the page hears of what happens on a chain that
  -- started with no executions and a clock past 0, then at any time, whatever transactions were sent
  -- and however wallets were connected, two rows of the table for one policy are at least 30 seconds
  -- apart.
  pub displayed-IsApart :
      (deployment : Deployment) (history : List Activity) (d : Devnet) (life : List Life)
      → 0 < d.unix_timestamp
      → d.events ≡ []
      → emitted life ≡ (run deployment history d).events
      → IsApart (displayed (after to_base58 life))
  unfolding displayed
  displayed-IsApart deployment history d life clock empty heard_of =
      let spaced : Spaced (emitted life) =
        subst Spaced (sym heard_of) (rebalances-Spaced deployment history d clock empty) in
      sort_events-IsApart (after to_base58 life).events (
        subst IsApart (sym (after-events to_base58 life))
          (rows-IsApart (heard life) (Spaced-heard life spaced)))
