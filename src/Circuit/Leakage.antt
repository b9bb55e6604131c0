-- ===== src/Circuit/Leakage.antt =====
-- What the circuit's answers tell of the threshold.
use native.Mathlib.Nat.{pow-suc}
use risk_claw_sol.Prelude.{
  ℕ, zero, suc, ◌+◌, ◌-◌, ◌^◌, ◌≤◌, ◌<◌, ◌≡◌, ◌↔◌, refl, Bool, List, [], ◌∷◌, map, All, leb, arith,
  if◌then◌else◌, ap₂,
}
use risk_claw_sol.Circuit.{compare}

-- No score of the list lies between the two thresholds.
abbrev pub Indistinct : ℕ → ℕ → List ℕ → Type 0
Indistinct t t' scores = All (λ score. (t ≤ score) ↔ (t' ≤ score)) scores

-- A search by halves for a number of k bits above `low`, that asks whether the number is at most a
-- score.
unfoldable pub search_by_halves : (ℕ → Bool) → ℕ → ℕ → ℕ
search_by_halves at_most zero low = low
search_by_halves at_most (suc k) low =
    search_by_halves at_most k (if at_most (low + 2 ^ k - 1) then low else low + 2 ^ k)

two_pow-pos : (k : ℕ) → 0 < 2 ^ k
two_pow-pos zero = omega arith
two_pow-pos (suc k) = omega (arith, two_pow-pos k, pow-suc 2 k)

module _ {Enc : Type 0} (to_arcis : Enc → ℕ) where
  answers-cons :
      (t t' : Enc) (score : ℕ)
      → (compare to_arcis t score ≡ compare to_arcis t' score)
        ↔ ((to_arcis t ≤ score) ↔ (to_arcis t' ≤ score))
  unfolding compare
  answers-cons t t' score = (λ same. (λ h. ground arith, λ h. ground arith), λ alike. ground arith)

  answers-Indistinct :
      (t t' : Enc) (scores : List ℕ)
      → (map (compare to_arcis t) scores ≡ map (compare to_arcis t') scores)
        ↔ Indistinct (to_arcis t) (to_arcis t') scores
  answers-Indistinct t t' [] = (λ same. tt, λ alike. refl)
  answers-Indistinct t t' (score ∷ scores) = (
    λ same. ((answers-cons t t' score).0 (cc), (answers-Indistinct t t' scores).0 (cc)),
    λ alike.
        ap₂ ◌∷◌ ((answers-cons t t' score).1 alike.0) ((answers-Indistinct t t' scores).1 alike.1),
  )

  search_by_halves-finds :
      (t : Enc) (k low : ℕ)
      → low ≤ to_arcis t
      → to_arcis t < low + 2 ^ k
      → search_by_halves (λ score. (compare to_arcis t score).0) k low ≡ to_arcis t
  unfolding search_by_halves compare
  search_by_halves-finds t zero low above below = omega (arith, above, below)
  search_by_halves-finds t (suc k) low above below =
      let low' : ℕ = if leb (to_arcis t) (low + 2 ^ k - 1) then low else low + 2 ^ k in
      search_by_halves-finds t k low' (ground (arith, two_pow-pos k))
        (ground (arith, two_pow-pos k, pow-suc 2 k))

  -- Whatever scores were asked, the answers for two thresholds are the same exactly if no score asked
  -- lies between them; and 64 answers to scores of one's choice are enough to find any threshold of 64
  -- bits.
  pub compare_reveals :
      (t t' : Enc) (scores : List ℕ)
      → to_arcis t < 2 ^ 64
      → ((map (compare to_arcis t) scores ≡ map (compare to_arcis t') scores)
          ↔ Indistinct (to_arcis t) (to_arcis t') scores)
        × (search_by_halves (λ score. (compare to_arcis t score).0) 64 0 ≡ to_arcis t)
  compare_reveals t t' scores small =
      (answers-Indistinct t t' scores, search_by_halves-finds t 64 0 (omega arith) small)
