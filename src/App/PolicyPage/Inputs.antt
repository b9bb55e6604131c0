-- ===== src/App/PolicyPage/Inputs.antt =====
-- app/app/policy/page.tsx: the four inputs of the form, with their bounds and what is written beside
-- them. The date beside the expiry is left out.
use risk_claw_sol.Prelude.{
  ℕ, ◌+◌, ◌/◌, ◌%◌, ◌≤◌, ◌≡◌, refl, List, [], ◌∷◌, ◌++◌, Option, none, some, String, codes, arith,
  ap, ◌∙◌,
}
use risk_claw_sol.Prelude.Decimal.{decimal_text, read_after, read-decimal_text, read-append}
use risk_claw_sol.App.PolicyPage.{
  Form, Field, drawdown_limit, max_notional, max_slippage, expires_at,
}

pub data InputKind : Type 0 where
  range number : InputKind

pub record Input : Type 0 where
  pub title : String
  pub kind : InputKind
  pub min : ℕ
  pub max : Option ℕ
  pub step : Option ℕ
  pub value : ℕ
  pub readout : List ℕ

-- `(n / 100).toFixed(2)`: the division by 100 is exact to two digits.
abbrev pub cents : ℕ → List ℕ
cents n = (48 + n / 10 % 10) ∷ (48 + n % 10) ∷ []

unfoldable pub percent_text : ℕ → List ℕ
percent_text n = decimal_text (n / 100) ++ (46 ∷ cents n)

-- `{n} bps ({(n / 100).toFixed(2)}%)`
unfoldable pub bps_readout : ℕ → List ℕ
bps_readout n = decimal_text n ++ (codes " bps (" ++ (percent_text n ++ codes "%)"))

unfoldable pub input_of : Field → Form → Input
input_of drawdown_limit form = record {
  title = "Drawdown limit (bps)";
  kind = range;
  min = 100;
  max = some 10000;
  step = some 100;
  value = form.drawdown_bps;
  readout = bps_readout form.drawdown_bps;
}
input_of max_notional form = record {
  title = "Max notional (USD)";
  kind = number;
  min = 0;
  max = none;
  step = some 50000;
  value = form.max_notional_usd;
  readout = [];
}
input_of max_slippage form = record {
  title = "Max slippage (bps)";
  kind = range;
  min = 0;
  max = some 1000;
  step = some 5;
  value = form.max_slippage_bps;
  readout = bps_readout form.max_slippage_bps;
}
input_of expires_at form = record {
  title = "Expires at (unix)";
  kind = number;
  min = 0;
  max = none;
  step = none;
  value = form.expires_at_unix;
  readout = [];
}

-- A slider reports only values in its range; a number box reports what is typed.
abbrev pub Within : ℕ → Option ℕ → ℕ → Type 0
Within low none n = Unit
Within low (some high) n = (low ≤ n) × (n ≤ high)

abbrev pub Reports : Input → ℕ → Type 0
Reports input n = elim input.kind [ range ↦ Within input.min input.max n | number ↦ Unit ]

-- The readout of a percentage has two digits after its point, and reads as the number of basis points.
pub read-percent_text :
    (n : ℕ)
    → (percent_text n ≡ decimal_text (n / 100) ++ (46 ∷ cents n))
      × (read_after 0 (decimal_text (n / 100) ++ cents n) ≡ n)
unfolding percent_text read_after
read-percent_text n = (
  refl,
  read-append 0 (decimal_text (n / 100)) (cents n)
      ∙ ap (λ k. read_after k (cents n)) (read-decimal_text (n / 100))
      ∙ omega arith,
)
