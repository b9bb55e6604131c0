-- ===== src/Client/Checks.antt =====
-- `checkThresholdBreach` over a history of calls: what a cached answer can be, and how old.
use risk_claw_sol.Prelude.{
  ◌≤◌, ◌≢◌, All, true, le→leb, ℕ, ◌+◌, ◌<◌, ◌≡◌, refl, ◌⊎◌, inl, inr, List, [], ◌∷◌, Option, none,
  some, String, arith, lookup, insert, lookup-insert, eq_iff, Bool-cases, ltb, ◌∙◌, subst,
}
use risk_claw_sol.Types.{ThresholdCheckResult, PositionMetrics}
use risk_claw_sol.Client.{RealClient, ReadEntry, evaluate, fresh_read, check_at}

-- A call, with the time at which it reads the clock.
pub record CheckCall : Type 0 where
  pub position_id : String
  pub metrics : PositionMetrics
  pub at : ℕ

-- A client that is asked in turn.
unfoldable pub run_checks : RealClient → List CheckCall → List ThresholdCheckResult × RealClient
run_checks c [] = ([], c)
run_checks c (x ∷ xs) =
    let (r, c') = check_at x.position_id x.metrics x.at c in
    let (rs, c'') = run_checks c' xs in (r ∷ rs, c'')

module _ (window : ℕ) where
  -- The answer is the evaluation of an earlier call on the position, made less than a window ago.
  abbrev pub FromPast : List CheckCall → CheckCall → ThresholdCheckResult → Type 0
  FromPast [] x r = ⊥
  FromPast (p ∷ past) x r =
      ((p.position_id ≡ x.position_id) × (r ≡ evaluate p.metrics) × (x.at < p.at + window))
      ⊎ FromPast past x r

  abbrev pub Explained : List CheckCall → CheckCall → ThresholdCheckResult → Type 0
  Explained past x r = (r ≡ evaluate x.metrics) ⊎ FromPast past x r

  -- Every answer, in order, is explained by the calls up to it.
  abbrev pub AllExplained : List CheckCall → List CheckCall → List ThresholdCheckResult → Type 0
  AllExplained past [] rs = rs ≡ []
  AllExplained past (x ∷ xs) [] = ⊥
  AllExplained past (x ∷ xs) (r ∷ rs) = Explained past x r × AllExplained (x ∷ past) xs rs

-- A cache entry that an earlier call on the key has written.
abbrev Written : List CheckCall → String → ReadEntry → Type 0
Written [] k e = ⊥
Written (p ∷ past) k e =
    ((p.position_id ≡ k) × (e.last_result ≡ evaluate p.metrics) × (e.last_checked_at ≡ p.at))
    ⊎ Written past k e

abbrev IsHistory : List CheckCall → List (String × ReadEntry) → Type 0
IsHistory past cache = (k : String) (e : ReadEntry) → lookup k cache ≡ some e → Written past k e

FromPast-of_Written :
    (window : ℕ) (past : List CheckCall) (x : CheckCall) (e : ReadEntry)
    → x.at < e.last_checked_at + window
    → Written past x.position_id e
    → FromPast window past x e.last_result
FromPast-of_Written window [] x e h w = w
FromPast-of_Written window (p ∷ past) x e h (inl w) = inl (w.0, w.1, omega arith)
FromPast-of_Written window (p ∷ past) x e h (inr w) = inr (FromPast-of_Written window past x e h w)

fresh_read-cases :
    (window now : ℕ) (o : Option ReadEntry)
    → (fresh_read window now o ≡ none)
      ⊎ ((e : ReadEntry) × (o ≡ some e)
          × (now < e.last_checked_at + window)
          × (fresh_read window now o ≡ some e.last_result))
unfolding fresh_read
fresh_read-cases window now none = inl refl
fresh_read-cases window now (some e) = elim (Bool-cases (ltb now (e.last_checked_at + window))) [
  | inl hit ↦ inr (e, refl, ground arith, rw hit)
  | inr miss ↦ inl (rw miss)
]

-- The client after a call that found no fresh entry.
abbrev pub renewed : CheckCall → RealClient → RealClient
renewed x c = record c {
  read_cache =
      insert x.position_id (record { last_checked_at = x.at; last_result = evaluate x.metrics })
        c.read_cache;
}

pub check_at-cases :
    (x : CheckCall) (c : RealClient)
    → (check_at x.position_id x.metrics x.at c ≡ (evaluate x.metrics, renewed x c))
      ⊎ ((e : ReadEntry) × (lookup x.position_id c.read_cache ≡ some e)
          × (x.at < e.last_checked_at + c.read_throttle_ms)
          × (check_at x.position_id x.metrics x.at c ≡ (e.last_result, c)))
unfolding check_at
check_at-cases x c =
    elim (fresh_read-cases c.read_throttle_ms x.at (lookup x.position_id c.read_cache)) [
      | inl stale ↦ inl (rw (stale, check_at))
      | inr (e, found, young, hit) ↦ inr (e, found, young, rw (hit, check_at))
    ]

IsHistory-renewed :
    (past : List CheckCall) (x : CheckCall) (c : RealClient)
    → IsHistory past c.read_cache
    → IsHistory (x ∷ past) (renewed x c).read_cache
IsHistory-renewed past x c h k e found = ground (
  arith,
  lookup-insert x.position_id k
      (record { last_checked_at = x.at; last_result = evaluate x.metrics }) c.read_cache,
  eq_iff x.position_id k,
  h k e,
)

-- One call: the answer is explained, and the cache stays a record of the calls.
check_at-Explained :
    (c : RealClient) (past : List CheckCall) (x : CheckCall)
    → IsHistory past c.read_cache
    → let (r, c') = check_at x.position_id x.metrics x.at c in
      Explained c.read_throttle_ms past x r
      × IsHistory (x ∷ past) c'.read_cache
      × (c'.read_throttle_ms ≡ c.read_throttle_ms)
check_at-Explained c past x h = elim (check_at-cases x c) [
  | inl fresh ↦ rw fresh (inl refl, IsHistory-renewed past x c h, refl)
  | inr (e, found, young, hit) ↦ rw hit (
    inr (FromPast-of_Written c.read_throttle_ms past x e young (h x.position_id e found)),
    (λ k e' f. inr (h k e' f)),
    refl,
  )
]

run_checks-Explained :
    (xs past : List CheckCall) (c : RealClient) (window : ℕ)
    → c.read_throttle_ms ≡ window
    → IsHistory past c.read_cache
    → AllExplained window past xs (run_checks c xs).0
unfolding run_checks
run_checks-Explained [] past c window e h = refl
run_checks-Explained (x ∷ xs) past c window e h =
    let step = check_at-Explained c past x h in
    (
      subst (λ m. Explained m past x (check_at x.position_id x.metrics x.at c).0) e step.0,
      run_checks-Explained xs (x ∷ past) (check_at x.position_id x.metrics x.at c).1 window
          (step.2 ∙ e) step.1,
    )

-- From an empty cache, every answer of a run is the evaluation of the metrics of that call or of an
-- earlier call on the same position that was made less than a throttle window before.
pub run_checks_explained :
    (xs : List CheckCall) (c : RealClient)
    → c.read_cache ≡ []
    → AllExplained c.read_throttle_ms [] xs (run_checks c xs).0
run_checks_explained xs c empty =
    run_checks-Explained xs [] c c.read_throttle_ms refl
      (λ k e found. unfold lookup in cc (subst (λ m. lookup k m ≡ some e) empty found))

-- The calls of a run, the latest first, before those of `past`.
abbrev latest_first : List CheckCall → List CheckCall → List CheckCall
latest_first [] past = past
latest_first (x ∷ xs) past = latest_first xs (x ∷ past)

run_checks-IsHistory :
    (xs past : List CheckCall) (c : RealClient)
    → IsHistory past c.read_cache
    → IsHistory (latest_first xs past) (run_checks c xs).1.read_cache
      × ((run_checks c xs).1.read_throttle_ms ≡ c.read_throttle_ms)
unfolding run_checks
run_checks-IsHistory [] past c h = (h, refl)
run_checks-IsHistory (x ∷ xs) past c h =
    let step = check_at-Explained c past x h in
    let rest =
      run_checks-IsHistory xs (x ∷ past) (check_at x.position_id x.metrics x.at c).1 step.1 in
    (rest.0, rest.1 ∙ step.2)

-- A call on the position of `x`, if it is one, is at least a window old when `x` is made.
abbrev pub IsOldFor : ℕ → CheckCall → CheckCall → Type 0
IsOldFor window x p = (p.position_id ≢ x.position_id) ⊎ (p.at + window ≤ x.at)

All-latest_first :
    (P : CheckCall → Type 0) (xs past : List CheckCall)
    → All P xs
    → All P past
    → All P (latest_first xs past)
All-latest_first P [] past h k = k
All-latest_first P (x ∷ xs) past h k = All-latest_first P xs (x ∷ past) h.1 (h.0, k)

old_not_fresh :
    (window : ℕ) (past : List CheckCall) (x : CheckCall) (e : ReadEntry)
    → All (IsOldFor window x) past
    → Written past x.position_id e
    → ¬ (x.at < e.last_checked_at + window)
old_not_fresh window [] x e h w = absurd w
old_not_fresh window (p ∷ past) x e h (inl w) = ground arith
old_not_fresh window (p ∷ past) x e h (inr w) = old_not_fresh window past x e h.1 w

-- After any run from an empty cache, a call on a position with no call less than a window old is
-- answered by its own metrics: a breach there is reported.
pub breach_reported :
    (xs : List CheckCall) (x : CheckCall) (c : RealClient)
    → c.read_cache ≡ []
    → All (IsOldFor c.read_throttle_ms x) xs
    → 2500 ≤ x.metrics.drawdown_bps
    → (check_at x.position_id x.metrics x.at (run_checks c xs).1).0
      ≡ record { breached = true; score = x.metrics.notional_usd }
unfolding evaluate
breach_reported xs x c empty old high =
    let (history, throttle) =
      run_checks-IsHistory xs [] c
        (λ k e found. unfold lookup in cc (subst (λ m. lookup k m ≡ some e) empty found)) in
    elim (check_at-cases x (run_checks c xs).1) [
      | inl fresh ↦ rw fresh (rw (le→leb 2500 x.metrics.drawdown_bps high))
      | inr (e, found, young, hit) ↦ absurd (
          old_not_fresh c.read_throttle_ms (latest_first xs []) x e
            (All-latest_first (IsOldFor c.read_throttle_ms x) xs [] old tt)
            (history x.position_id e found) (omega arith))
    ]
