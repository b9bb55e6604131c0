-- ===== src/Errors.antt =====
-- packages/onchain/src/errors.ts: what the package throws, and the outcome of a call that may throw.
use Prim.Native.String.{◌++◌}
use risk_claw_sol.Prelude.{
  ◌≡◌, refl, ap, ◌∙◌, ◌⊎◌, inl, inr, Bool, true, false, Option, none, String,
}

-- The class of a thrown value; `plain_error` is JavaScript's own `Error`.
pub data ErrorClass : Type 0 where
  arcium_timeout arcium_cluster_unavailable slippage_rejected not_implemented : ErrorClass
  multisig_signature_rejected onchain_rejection plain_error : ErrorClass

pub record Thrown : Type 0 where
  pub class : ErrorClass
  pub message : String
  pub cause : Option String

-- `err instanceof RiskclawError`
unfoldable pub is_riskclaw_error : Thrown → Bool
is_riskclaw_error t = elim t.class [ plain_error ↦ false | _ ↦ true ]

-- The constructor that every subclass but one inherits.
abbrev pub riskclaw_error : ErrorClass → String → Option String → Thrown
riskclaw_error c text why = record { class = c; message = text; cause = why }

abbrev pub not_implemented_error : String → Option String → Thrown
not_implemented_error what why =
    riskclaw_error not_implemented ("not implemented in v1: " ++ what) why

abbrev pub error : String → Thrown
error text = riskclaw_error plain_error text none

-- How an awaited call ends.
pub data Outcome {ℓ} (A : Type ℓ) : Type ℓ where
  ok : A → Outcome A
  throws : Thrown → Outcome A

infixl 5 ◌>>=◌
abbrev pub ◌>>=◌ {ℓ κ} : {A : Type ℓ} {B : Type κ} → Outcome A → (A → Outcome B) → Outcome B
ok a >>= f = f a
throws t >>= f = throws t

pub is_riskclaw_error-not_implemented :
    (what : String) (why : Option String)
    → is_riskclaw_error (not_implemented_error what why) ≡ true
unfolding is_riskclaw_error
is_riskclaw_error-not_implemented what why = refl

pub Outcome-cases {ℓ} :
    {A : Type ℓ} (o : Outcome A) → ((t : Thrown) × (o ≡ throws t)) ⊎ ((a : A) × (o ≡ ok a))
Outcome-cases (ok a) = inr (a, refl)
Outcome-cases (throws t) = inl (t, refl)

-- A chain of two calls that succeeds.
pub bind-ok :
    {A B : Type 0} (m : Outcome A) (next : A → Outcome B) (b : B)
    → (m >>= next) ≡ ok b
    → (a : A) × (m ≡ ok a) × (next a ≡ ok b)
bind-ok (ok a) next b passed = (a, refl, passed)
bind-ok (throws t) next b passed = cc passed

-- The same, for a goal that goes on from the two results.
pub bind-elim :
    {A B C : Type 0} (m : Outcome A) (next : A → Outcome B) (b : B)
    → (m >>= next) ≡ ok b
    → ((a : A) → m ≡ ok a → next a ≡ ok b → C)
    → C
bind-elim m next b passed goal = let (a, done, rest) = bind-ok m next b passed in goal a done rest

-- A chain whose first call succeeds.
pub bind-step :
    {A B : Type 0} (m : Outcome A) (next : A → Outcome B) (a : A) (r : Outcome B)
    → m ≡ ok a
    → next a ≡ r
    → (m >>= next) ≡ r
bind-step m next a r done rest = ap (λ o. o >>= next) done ∙ rest
