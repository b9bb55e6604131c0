-- ===== src/Prelude/Decimal.antt =====
-- Natural numbers as JavaScript prints them: in decimal, without leading zeros.
use Prim.Native.Nat.{ℕ, zero, suc, ◌+◌, ◌*◌, ◌/◌, ◌%◌, ◌<◌, ◌-◌}
use mathlib.Core.Path.{◌≡◌, refl, ap, ◌∙◌}
use mathlib.Core.Logic.{inl, inr}
use mathlib.Core.List.{List, [], ◌∷◌, ◌++◌}
use native.Mathlib.Omega.{arith}
use risk_claw_sol.Prelude.Tests.{ltb, Bool-cases, if◌then◌else◌}

-- The digits of `n` in front of `rest`, with more rounds than digits.
digits_before : ℕ → ℕ → List ℕ → List ℕ
digits_before zero n rest = rest
digits_before (suc rounds) n rest =
    let more = digits_before rounds (n / 10) ((48 + n % 10) ∷ rest) in
    if ltb n 10 then (48 + n) ∷ rest else more

-- A number of k digits is at least k - 1, so one round more than the number is enough.
unfoldable pub decimal_text : ℕ → List ℕ
unfolding digits_before
decimal_text n = digits_before (suc n) n []

-- What a text of digits stands for, after a number that was read before it.
unfoldable pub read_after : ℕ → List ℕ → ℕ
read_after acc [] = acc
read_after acc (c ∷ cs) = read_after (acc * 10 + (c - 48)) cs

read-digits_before :
    (rounds n : ℕ) (rest : List ℕ)
    → n < rounds
    → read_after 0 (digits_before rounds n rest) ≡ read_after n rest
unfolding digits_before read_after
read-digits_before zero n rest h = elim h [ ]
read-digits_before (suc rounds) n rest h = elim (Bool-cases (ltb n 10)) [
  | inl small ↦ rw small (ap (λ k. read_after k rest) (omega arith))
  | inr large ↦ rw large (
      read-digits_before rounds (n / 10) ((48 + n % 10) ∷ rest) (ground (arith, large))
      ∙ ap (λ k. read_after k rest) (omega arith))
]

-- What is printed, followed by other digits, reads as the number followed by them.
pub read-decimal_text : (n : ℕ) → read_after 0 (decimal_text n) ≡ n
unfolding decimal_text read_after
read-decimal_text n = read-digits_before (suc n) n [] (omega arith)

pub read-append :
    (acc : ℕ) (xs ys : List ℕ) → read_after acc (xs ++ ys) ≡ read_after (read_after acc xs) ys
unfolding read_after
read-append acc [] ys = refl
read-append acc (c ∷ cs) ys = read-append (acc * 10 + (c - 48)) cs ys
