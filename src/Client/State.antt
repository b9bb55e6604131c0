-- ===== src/Client/State.antt =====
-- The fields of `RealClient` and the monad of its methods: a method reads and writes the client and
-- its environment, and ends with a value or an exception. What was written stays written.
use risk_claw_sol.Prelude.{ℕ, Bool, List, Option, String, if◌then◌else◌}
use risk_claw_sol.Types.{TxSig, ThresholdCheckResult}
use risk_claw_sol.Errors.{Outcome, ok, throws, Thrown}

pub record ReadEntry : Type 0 where
  pub last_checked_at : ℕ
  pub last_result : ThresholdCheckResult

pub record WriteEntry : Type 0 where
  pub last_tx_sig : TxSig
  pub last_executed_at : ℕ

-- `risk_policy` and `swig_delegation` say whether the program handles are not null.
pub record RealClient : Type 0 where
  pub read_throttle_ms : ℕ
  pub write_throttle_ms : ℕ
  pub risk_policy : Bool
  pub swig_delegation : Bool
  pub read_cache : List (String × ReadEntry)
  pub write_cache : List (String × WriteEntry)

-- What `createRealClient` is given, beside the connection and the wallet.
pub record CreateRealClientOpts : Type 0 where
  pub read_throttle_ms : Option ℕ
  pub write_throttle_ms : Option ℕ
  pub risk_policy_idl : Bool
  pub swig_delegation_idl : Bool

pub record World (E : Type 0) : Type 0 where
  pub client : RealClient
  pub env : E

abbrev pub Call : Type 0 → Type 0 → Type 0
Call E A = World E → Outcome A × World E

module _ {E : Type 0} where
  abbrev pub pure {ℓ} : {A : Type ℓ} → A → World E → Outcome A × World E
  pure a w = (ok a, w)

  abbrev pub throw {ℓ} : {A : Type ℓ} → Thrown → World E → Outcome A × World E
  throw t w = (throws t, w)

  abbrev pub lift : {A : Type 0} → Outcome A → Call E A
  lift o w = (o, w)

  -- `if (test) throw t`
  abbrev pub throw_if : Bool → Thrown → Call E (Unit {0})
  throw_if b t w = (if b then throws t else ok tt, w)

  abbrev pub this : Call E RealClient
  this w = (ok w.client, w)

  infixl 5 ◌>>=◌ ◌>>◌
  abbrev pub ◌>>=◌ : {A B : Type 0} → Call E A → (A → Call E B) → Call E B
  ◌>>=◌ m f w = let (o, w') = m w in elim o [ ok a ↦ f a w' | throws t ↦ (throws t, w') ]

  abbrev pub ◌>>◌ : {A B : Type 0} → Call E A → Call E B → Call E B
  m >> k = m >>= λ _. k
