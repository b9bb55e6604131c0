-- ===== src/Programs/SwigDelegation.antt =====
-- programs/programs/swig_delegation/src: the bounded rebalance executor. A Unix time is a natural
-- number here, so `saturating_sub` is the subtraction that stops at 0: as in the source, a clock
-- behind the stored time counts as no time elapsed.
pub mod Gates
use risk_claw_sol.Prelude.{
  ℕ, ◌≡◌, refl, ◌⊎◌, inl, inr, ◌-◌, ◌*◌, ◌^◌, ◌<◌, Bool, true, false, ◌||◌, Option, none, some, leb,
  ◌==◌, if◌then◌else◌,
}
use risk_claw_sol.Types.{PublicKey}

pub data RebalanceAction : Type 0 where
  reduce exit hedge : RebalanceAction

-- The account `LastRebalanced`.
pub record LastRebalanced : Type 0 where
  pub timestamp : ℕ
  pub bump : ℕ

abbrev pub rate_limit_secs : ℕ
rate_limit_secs = 30

pub record RebalanceExecutedEvent : Type 0 where
  pub policy : PublicKey
  pub guardian_authority : PublicKey
  pub action : RebalanceAction
  pub size_bps : ℕ
  pub ts : ℕ

-- The program's errors, and the panic of an arithmetic overflow.
pub data SwigDelegationError : Type 0 where
  rebalance_too_soon slippage_too_high not_implemented invalid_size : SwigDelegationError
  arithmetic_overflow : SwigDelegationError

pub data Result {ℓ} (A : Type ℓ) : Type ℓ where
  ok : A → Result A
  err : SwigDelegationError → Result A

pub Result-cases {ℓ} :
    {A : Type ℓ} (r : Result A) → ((e : SwigDelegationError) × (r ≡ err e)) ⊎ ((a : A) × (r ≡ ok a))
Result-cases (ok a) = inr (a, refl)
Result-cases (err e) = inl (e, refl)

infixl 5 ◌>>=◌ ◌>>◌
abbrev pub ◌>>=◌ : {A B : Type 0} → Result A → (A → Result B) → Result B
m >>= next = elim m [ ok a ↦ next a | err refusal ↦ err refusal ]

abbrev pub ◌>>◌ : {B : Type 0} → Result (Unit {0}) → Result B → Result B
check >> next = elim check [ ok _ ↦ next | err refusal ↦ err refusal ]

-- `require!`
abbrev pub require : Bool → SwigDelegationError → Result (Unit {0})
require true e = ok tt
require false e = err e

-- The arguments and the accounts of `execute_rebalance`.
pub record ExecuteRebalance : Type 0 where
  pub policy : PublicKey
  pub guardian_authority : PublicKey
  pub action : RebalanceAction
  pub size_bps : ℕ
  pub max_slippage_bps : ℕ
  pub expected_out : ℕ
  pub min_out : ℕ

-- The ranges of the argument types: u16, u16, u64, u64.
pub record IsWellTyped (x : ExecuteRebalance) : Type 0 where
  pub size_u16 : x.size_bps < 2 ^ 16
  pub slippage_u16 : x.max_slippage_bps < 2 ^ 16
  pub expected_u64 : x.expected_out < 2 ^ 64
  pub min_u64 : x.min_out < 2 ^ 64

abbrev pub is_exit : RebalanceAction → Bool
is_exit exit = true
is_exit _ = false

-- `10_000u128 - max_slippage_bps as u128`, under the workspace's `overflow-checks = true`.
abbrev pub checked_sub : ℕ → ℕ → Result ℕ
checked_sub a b = if leb b a then ok (a - b) else err arithmetic_overflow

-- `execute_rebalance::handle`: the account before, the clock and the bump; the account after and
-- the event.
unfoldable pub handle :
    ExecuteRebalance → ℕ → ℕ → LastRebalanced → Result (LastRebalanced × RebalanceExecutedEvent)
handle x now bump lr = do
  let elapsed = now - lr.timestamp
  require (lr.timestamp == 0 || leb rate_limit_secs elapsed) rebalance_too_soon
  require (is_exit x.action) not_implemented
  require (leb x.size_bps 10000) invalid_size
  tolerated ← checked_sub 10000 x.max_slippage_bps
  require (leb (x.expected_out * tolerated) (x.min_out * 10000)) slippage_too_high
  ok (
    record { timestamp = now; bump = bump },
    record {
      policy = x.policy;
      guardian_authority = x.guardian_authority;
      action = x.action;
      size_bps = x.size_bps;
      ts = now;
    },
  )

-- `init_if_needed`: an account that does not exist yet starts as zeros.
abbrev pub init_if_needed : Option LastRebalanced → LastRebalanced
init_if_needed none = record { timestamp = 0; bump = 0 }
init_if_needed (some lr) = lr
