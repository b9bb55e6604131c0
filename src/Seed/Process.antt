-- ===== src/Seed/Process.antt =====
-- The monad of scripts/seed-demo.ts and scripts/create-multisig.ts: a run reads and changes the cluster, and ends with a value or ends
-- the process.
use risk_claw_sol.Prelude.{◌≡◌, refl, ◌⊎◌, inl, inr}
use risk_claw_sol.Errors.{Outcome, ok, throws, Thrown}

abbrev pub Run : Type 0 → Type 0 → Type 0
Run E A = E → Outcome A × E

infixl 5 ◌>>=◌ ◌>>◌
abbrev pub ◌>>=◌ : {E A B : Type 0} → Run E A → (A → Run E B) → Run E B
◌>>=◌ m f e = let (o, e') = m e in elim o [ ok a ↦ f a e' | throws t ↦ (throws t, e') ]

abbrev pub ◌>>◌ : {E A B : Type 0} → Run E A → Run E B → Run E B
m >> k = m >>= λ _. k

abbrev pub lift : {E A : Type 0} → Outcome A → Run E A
lift o e = (o, e)

-- How a call ends, with the equation kept.
pub Call-cases :
    {E A : Type 0} (x : Outcome A × E)
    → ((t : Thrown) × (e : E) × (x ≡ (throws t, e))) ⊎ ((a : A) × (e : E) × (x ≡ (ok a, e)))
Call-cases (ok a, e) = inr (a, e, refl)
Call-cases (throws t, e) = inl (t, e, refl)
