-- ===== src/Circuit.antt =====
-- encrypted/threshold_compare/encrypted-ixs/src/lib.rs: the circuit that is to compare an encrypted
-- threshold with a score. Encrypted values and `to_arcis`, which decrypts inside the computation, are
-- the runtime's, and parameters; a u64 is a natural number.
pub mod Leakage
pub mod Stub
use risk_claw_sol.Prelude.{ℕ, Bool, leb}

module _ {Enc : Type 0} (to_arcis : Enc → ℕ) where
  unfoldable pub compare : Enc → ℕ → Bool × ℕ
  compare threshold score = (leb (to_arcis threshold) score, score)
