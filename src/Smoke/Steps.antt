-- ===== src/Smoke/Steps.antt =====
-- The steps of the demo, one by one: what each leaves of the session.
use risk_claw_sol.Prelude.{
  ℕ, ◌+◌, ◌≤◌, ◌<◌, ◌≡◌, refl, ◌∙◌, ap, true, false, [], Option, none, some, String, arith, lookup,
  insert, lookup-insert_self, lt→ltb, le→not_ltb,
}
use risk_claw_sol.Types.{PublicKey, ThresholdCheckResult, PositionMetrics}
use risk_claw_sol.Errors.{ok}
use risk_claw_sol.Ids.{Ids}
use risk_claw_sol.Client.{
  World, RealClient, ReadEntry, check_threshold_breach, check_at, evaluate, fresh_read,
}
use risk_claw_sol.Devnet.{Deployment}
use risk_claw_sol.Session.{Session, session_host}
use risk_claw_sol.Smoke.{
  check_steps, paced, high_stage, low_stage, ignored_stage, metrics_of, sleep, same_result,
}

-- A session some time later, with nothing done on the chain.
pub record IsLater (s s' : Session) : Type 0 where
  pub same_link : s'.link ≡ s.link
  pub same_policies : s'.chain.policies ≡ s.chain.policies
  pub same_accounts : s'.chain.last_rebalanced ≡ s.chain.last_rebalanced
  pub same_events : s'.chain.events ≡ s.chain.events
  pub same_count : s'.chain.count ≡ s.chain.count
  pub clock : s.chain.unix_timestamp ≤ s'.chain.unix_timestamp

-- What steps 4 to 6 leave: a read cache, and a later session.
pub record IsChecked (w w' : World Session) : Type 0 where
  pub later : IsLater w.env w'.env
  pub same_swig : w'.client.swig_delegation ≡ w.client.swig_delegation
  pub same_writes : w'.client.write_cache ≡ w.client.write_cache
  pub same_write_throttle : w'.client.write_throttle_ms ≡ w.client.write_throttle_ms

pub paced-IsLater : (pace_ms : ℕ) (w : World Session) → IsLater w.env (paced pace_ms w).env
paced-IsLater pace_ms w = record {
  same_link = ground arith;
  same_policies = ground arith;
  same_accounts = ground arith;
  same_events = ground arith;
  same_count = ground arith;
  clock = ground arith;
}

pub paced-client : (pace_ms : ℕ) (w : World Session) → (paced pace_ms w).client ≡ w.client
paced-client pace_ms w = ground arith

module _ (deployment : Deployment) (wallet : PublicKey) where
  -- The client's answer from its cache, if it is fresh.
  abbrev cached_result : String → World Session → Option ThresholdCheckResult
  cached_result id w =
      fresh_read w.client.read_throttle_ms w.env.date_ms (lookup id w.client.read_cache)

  -- The world after a check that was evaluated.
  abbrev checked_world : String → PositionMetrics → World Session → World Session
  checked_world id m w = record w {
    client = record (w.client) {
      read_cache =
          insert id (record { last_checked_at = w.env.date_ms; last_result = evaluate m })
            w.client.read_cache;
    };
  }

  evaluated :
      (id : String) (m : PositionMetrics) (w : World Session)
      → cached_result id w ≡ none
      → check_threshold_breach (session_host deployment wallet) id m w
        ≡ (ok (evaluate m), checked_world id m w)
  unfolding check_threshold_breach check_at
  evaluated id m w stale = ground (arith, stale)

  answered :
      (id : String) (m : PositionMetrics) (w : World Session) {r : ThresholdCheckResult}
      → cached_result id w ≡ some r
      → check_threshold_breach (session_host deployment wallet) id m w ≡ (ok r, w)
  unfolding check_threshold_breach check_at
  answered id m w fresh = ground (arith, fresh)

  -- After a wait of a window a check is evaluated again; before its end it is answered.
  stale_after :
      (id : String) (m : PositionMetrics) (w w' : World Session)
      → w.client.read_throttle_ms ≡ 5000
      → w'.client ≡ (checked_world id m w).client
      → w.env.date_ms + 5000 ≤ w'.env.date_ms
      → cached_result id w' ≡ none
  unfolding fresh_read
  stale_after id m w w' window same late =
      let e : ReadEntry = record { last_checked_at = w.env.date_ms; last_result = evaluate m } in
      rw (same, window, lookup-insert_self id e w.client.read_cache)
        (rw (le→not_ltb (w.env.date_ms + 5000) w'.env.date_ms late) refl)

  fresh_after :
      (id : String) (m : PositionMetrics) (w w' : World Session)
      → w.client.read_throttle_ms ≡ 5000
      → w'.client ≡ (checked_world id m w).client
      → w'.env.date_ms < w.env.date_ms + 5000
      → cached_result id w' ≡ some (evaluate m)
  unfolding fresh_read
  fresh_after id m w w' window same early =
      let e : ReadEntry = record { last_checked_at = w.env.date_ms; last_result = evaluate m } in
      rw (same, window, lookup-insert_self id e w.client.read_cache)
        (rw (lt→ltb w'.env.date_ms (w.env.date_ms + 5000) early) refl)

module _ (deployment : Deployment) (ids : Ids) (wallet : PublicKey) where
  -- The steps in a row, from what each check answers.
  check_steps_are :
      (pace_ms : ℕ) (id : String) (w w1 w4 w6 : World Session) {r4 r5 r6 : ThresholdCheckResult}
      → check_threshold_breach
          (session_host deployment wallet)
          id
          (metrics_of id low_stage w.env.date_ms)
          w
        ≡ (ok r4, w1)
      → r4.breached ≡ false
      → check_threshold_breach
          (session_host deployment wallet)
          id
          (metrics_of id high_stage (sleep 5200 (paced pace_ms w1)).1.env.date_ms)
          (sleep 5200 (paced pace_ms w1)).1
        ≡ (ok r5, w4)
      → r5.breached ≡ true
      → check_threshold_breach
          (session_host deployment wallet)
          id
          (metrics_of id ignored_stage (paced pace_ms w4).env.date_ms)
          (paced pace_ms w4)
        ≡ (ok r6, w6)
      → same_result r6 r5 ≡ true
      → check_steps deployment ids wallet pace_ms id w ≡ (ok r5, paced pace_ms w6)
  unfolding check_steps
  check_steps_are pace_ms id w w1 w4 w6 low calm high breach again same = ground arith

  -- With a new client and a pace of less than five seconds, steps 4 to 6 pass.
  pub check_steps_pass :
      (pace_ms : ℕ) (id : String) (w : World Session)
      → w.client.read_cache ≡ []
      → w.client.read_throttle_ms ≡ 5000
      → pace_ms < 5000
      → (w' : World Session) × (check_steps deployment ids wallet pace_ms id w
          ≡ (ok (record { breached = true; score = 7500 }), w'))
        × IsChecked w w'
  unfolding evaluate fresh_read lookup
  check_steps_pass pace_ms id w empty throttle quick =
      let m4 : PositionMetrics = metrics_of id low_stage w.env.date_ms in
      let w1 : World Session = checked_world deployment wallet id m4 w in
      let w2 : World Session = paced pace_ms w1 in
      let w3 : World Session = (sleep 5200 w2).1 in
      let m5 : PositionMetrics = metrics_of id high_stage w3.env.date_ms in
      let w4 : World Session = checked_world deployment wallet id m5 w3 in
      let w5 : World Session = paced pace_ms w4 in
      let w7 : World Session = paced pace_ms w5 in
      let same1 : w3.client ≡ w1.client = paced-client pace_ms w1 in
      let same2 : w5.client ≡ w4.client = paced-client pace_ms w4 in
      let throttle3 : w3.client.read_throttle_ms ≡ 5000 =
        ap (λ (c : RealClient). c.read_throttle_ms) same1 ∙ throttle in
      let l2 = paced-IsLater pace_ms w1 in
      let l5 = paced-IsLater pace_ms w4 in
      let l7 = paced-IsLater pace_ms w5 in
      let same3 : w7.client ≡ w4.client = paced-client pace_ms w5 ∙ same2 in
      let late : w.env.date_ms + 5000 ≤ w3.env.date_ms = ground arith in
      let early : w5.env.date_ms < w3.env.date_ms + 5000 = ground arith in
      (
        w7,
        check_steps_are pace_ms id w w1 w4 w5 (evaluated deployment wallet id m4 w (rw empty refl))
            refl
            (evaluated deployment wallet id m5 w3
              (stale_after deployment wallet id m4 w w3 throttle same1 late))
            refl
            (answered deployment wallet id (metrics_of id ignored_stage w5.env.date_ms) w5
              (fresh_after deployment wallet id m5 w3 w5 throttle3 same2 early))
            refl,
        record {
          later = record {
            same_link = l7.same_link ∙ l5.same_link ∙ l2.same_link;
            same_policies = l7.same_policies ∙ l5.same_policies ∙ l2.same_policies;
            same_accounts = l7.same_accounts ∙ l5.same_accounts ∙ l2.same_accounts;
            same_events = l7.same_events ∙ l5.same_events ∙ l2.same_events;
            same_count = l7.same_count ∙ l5.same_count ∙ l2.same_count;
            clock = omega (arith, l7.clock, l5.clock, l2.clock);
          };
          same_swig =
              ap (λ (c : RealClient). c.swig_delegation) same3
              ∙ ap (λ (c : RealClient). c.swig_delegation) same1;
          same_writes =
              ap (λ (c : RealClient). c.write_cache) same3
              ∙ ap (λ (c : RealClient). c.write_cache) same1;
          same_write_throttle =
              ap (λ (c : RealClient). c.write_throttle_ms) same3
              ∙ ap (λ (c : RealClient). c.write_throttle_ms) same1;
        },
      )
