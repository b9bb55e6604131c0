-- ===== src/Programs/SwigDelegation/Gates.antt =====
-- When `execute_rebalance` succeeds, with what result, and in which order its gates refuse.

use risk_claw_sol.Prelude.{ℕ, ◌+◌, ◌-◌, ◌*◌, ◌^◌, ◌≤◌, ◌<◌, ◌≡◌, ◌≢◌, ◌↔◌, ap, sym, ◌∙◌, arith}
use risk_claw_sol.Programs.SwigDelegation.{
  exit, LastRebalanced, RebalanceExecutedEvent, ExecuteRebalance, IsWellTyped, SwigDelegationError,
  rebalance_too_soon, slippage_too_high, not_implemented, invalid_size, arithmetic_overflow, ok,
  err, handle, rate_limit_secs,
}

-- What a call must meet to be executed, in the order of the checks.
abbrev pub InWindow : ℕ → LastRebalanced → Type 0
InWindow now lr = (lr.timestamp ≢ 0) × (now < lr.timestamp + rate_limit_secs)

pub record IsAllowed (x : ExecuteRebalance) (now : ℕ) (lr : LastRebalanced) : Type 0 where
  pub rate : ¬ (InWindow now lr)
  pub action_exit : x.action ≡ exit
  pub size_bounded : x.size_bps ≤ 10000
  pub slippage_sane : x.max_slippage_bps ≤ 10000
  pub slippage_met : x.expected_out * (10000 - x.max_slippage_bps) ≤ x.min_out * 10000

abbrev pub executed : ExecuteRebalance → ℕ → ℕ → LastRebalanced × RebalanceExecutedEvent
executed x now bump = (
  record { timestamp = now; bump = bump },
  record {
    policy = x.policy;
    guardian_authority = x.guardian_authority;
    action = exit;
    size_bps = x.size_bps;
    ts = now;
  },
)

pub handle_of_IsAllowed :
    (x : ExecuteRebalance) (now bump : ℕ) (lr : LastRebalanced)
    → IsAllowed x now lr
    → handle x now bump lr ≡ ok (executed x now bump)
unfolding handle
handle_of_IsAllowed x now bump lr h = ground arith

pub IsAllowed-of_handle :
    (x : ExecuteRebalance) (now bump : ℕ) (lr : LastRebalanced)
    {r : LastRebalanced × RebalanceExecutedEvent}
    → handle x now bump lr ≡ ok r
    → IsAllowed x now lr × (r ≡ executed x now bump)
unfolding handle
IsAllowed-of_handle x now bump lr h = ground arith

-- Why a call is refused: the first gate that it fails.
abbrev pub Refusal : SwigDelegationError → ExecuteRebalance → ℕ → LastRebalanced → Type 0
Refusal rebalance_too_soon x now lr = InWindow now lr
Refusal not_implemented x now lr = ¬ (InWindow now lr) × (x.action ≢ exit)
Refusal invalid_size x now lr = ¬ (InWindow now lr) × (x.action ≡ exit) × (10000 < x.size_bps)
Refusal arithmetic_overflow x now lr =
    ¬ (InWindow now lr) × (x.action ≡ exit) × (x.size_bps ≤ 10000) × (10000 < x.max_slippage_bps)
Refusal slippage_too_high x now lr =
    ¬ (InWindow now lr)
    × (x.action ≡ exit)
    × (x.size_bps ≤ 10000)
    × (x.max_slippage_bps ≤ 10000)
    × (x.min_out * 10000 < x.expected_out * (10000 - x.max_slippage_bps))

refused_with :
    (e : SwigDelegationError) (x : ExecuteRebalance) (now bump : ℕ) (lr : LastRebalanced)
    → Refusal e x now lr
    → handle x now bump lr ≡ err e
unfolding handle
refused_with rebalance_too_soon x now bump lr h = ground arith
refused_with not_implemented x now bump lr h = ground arith
refused_with invalid_size x now bump lr h = ground arith
refused_with arithmetic_overflow x now bump lr h = ground arith
refused_with slippage_too_high x now bump lr h = ground arith

why_refused :
    (e : SwigDelegationError) (x : ExecuteRebalance) (now bump : ℕ) (lr : LastRebalanced)
    → handle x now bump lr ≡ err e
    → Refusal e x now lr
unfolding handle
why_refused rebalance_too_soon x now bump lr h = ground arith
why_refused not_implemented x now bump lr h = ground arith
why_refused invalid_size x now bump lr h = ground arith
why_refused arithmetic_overflow x now bump lr h = ground arith
why_refused slippage_too_high x now bump lr h = ground arith

-- A call is executed, with the new timestamp and the event of the call, exactly when it is allowed.
pub handle-ok_iff :
    (x : ExecuteRebalance) (now bump : ℕ) (lr : LastRebalanced)
    → (handle x now bump lr ≡ ok (executed x now bump)) ↔ IsAllowed x now lr
handle-ok_iff x now bump lr =
    ((λ h. (IsAllowed-of_handle x now bump lr h).0), handle_of_IsAllowed x now bump lr)

-- Each error is returned exactly for its own reason, the first gate in order that the call fails.
pub handle-err_iff :
    (e : SwigDelegationError) (x : ExecuteRebalance) (now bump : ℕ) (lr : LastRebalanced)
    → (handle x now bump lr ≡ err e) ↔ Refusal e x now lr
handle-err_iff e x now bump lr = (why_refused e x now bump lr, refused_with e x now bump lr)

-- A call returns a result exactly when it is allowed, and then the new timestamp with the event of the
-- call; it returns an error exactly for that error's own reason, the first gate in order that it fails.
pub handle_decides :
    (x : ExecuteRebalance) (now bump : ℕ) (lr : LastRebalanced)
    → ((r : LastRebalanced × RebalanceExecutedEvent)
        → (handle x now bump lr ≡ ok r) ↔ (IsAllowed x now lr × (r ≡ executed x now bump)))
      × ((e : SwigDelegationError) → (handle x now bump lr ≡ err e) ↔ Refusal e x now lr)
handle_decides x now bump lr = (
  λ r. (
    λ h. IsAllowed-of_handle x now bump lr h,
    λ (allowed, same). handle_of_IsAllowed x now bump lr allowed ∙ ap ok (sym same),
  ),
  λ e. handle-err_iff e x now bump lr,
)

product_bound : (a b : ℕ) → a < 2 ^ 64 → b ≤ 10000 → a * b < 2 ^ 128
product_bound a b h k = grind arith

-- The products of the slippage gate fit in 128 bits for arguments of the declared types.
pub slippage_products_u128 :
    (x : ExecuteRebalance)
    → IsWellTyped x
    → (x.min_out * 10000 < 2 ^ 128) × (x.expected_out * (10000 - x.max_slippage_bps) < 2 ^ 128)
slippage_products_u128 x w = (
  omega arith,
  product_bound x.expected_out (10000 - x.max_slippage_bps) w.expected_u64 (omega arith),
)
