-- ===== src/App/Shell.antt =====
-- app/app/site-shell.tsx and app/app/page.tsx: the tabs of the navigation, which one is marked, and
-- what the landing page offers. A path is the list of its character codes.
use risk_claw_sol.Prelude.{
  ℕ, ◌≤◌, ◌≡◌, refl, Bool, true, false, ◌&&◌, List, [], ◌∷◌, All, Option, none, some, String, codes,
  length, ◌==◌, if◌then◌else◌, arith,
}
use risk_claw_sol.Types.{PublicKey}
use risk_claw_sol.App.PolicyPage.View.{chip_text}

pub record Tab : Type 0 where
  pub href : List ℕ
  pub label : String

-- `NAV`
abbrev pub console : Tab
console = record { href = codes "/"; label = "Console" }

abbrev pub policy : Tab
policy = record { href = codes "/policy"; label = "Policy" }

abbrev pub audit : Tab
audit = record { href = codes "/audit"; label = "Audit" }

abbrev pub same_path : List ℕ → List ℕ → Bool
same_path [] [] = true
same_path [] (c ∷ s) = false
same_path (p ∷ ps) [] = false
same_path (p ∷ ps) (c ∷ s) = (p == c) && same_path ps s

-- `s.startsWith(p)`
abbrev pub starts_with : List ℕ → List ℕ → Bool
starts_with [] s = true
starts_with (p ∷ ps) [] = false
starts_with (p ∷ ps) (c ∷ s) = (p == c) && starts_with ps s

unfoldable pub is_active : List ℕ → Tab → Bool
is_active pathname tab =
    if same_path tab.href (codes "/")
    then same_path pathname (codes "/")
    else starts_with tab.href pathname

-- The tabs that are marked.
abbrev pub marked : List ℕ → List Tab → List Tab
marked pathname [] = []
marked pathname (tab ∷ tabs) =
    if is_active pathname tab then tab ∷ marked pathname tabs else marked pathname tabs

abbrev pub nav : List Tab
nav = console ∷ policy ∷ audit ∷ []

-- Whatever the path, at most one tab of the navigation is marked.
pub marked-nav : (pathname : List ℕ) → length (marked pathname nav) ≤ 1
unfolding is_active
marked-nav [] = omega arith
marked-nav (c ∷ []) = ground arith
marked-nav (c ∷ d ∷ s) = ground arith

-- The chip and the links of the landing page.
pub record Landing : Type 0 where
  pub label : String
  pub chip : List ℕ
  pub links : List (List ℕ)

abbrev chip_of : (PublicKey → List ℕ) → Bool → Option PublicKey → String × List ℕ
chip_of to_base58 connected none = ("Network", codes "devnet · no wallet connected")
chip_of to_base58 connected (some key) =
    if connected
    then ("Operator", chip_text (to_base58 key))
    else ("Network", codes "devnet · no wallet connected")

unfoldable pub landing : (PublicKey → List ℕ) → Bool → Option PublicKey → Landing
landing to_base58 connected key =
    let (label, chip) = chip_of to_base58 connected key in
    record {
      label = label;
      chip = chip;
      links = if connected then codes "/policy" ∷ codes "/audit" ∷ [] else [];
    }

-- Every link of the landing page leads to a path that marks exactly one tab, and none is offered
-- without a wallet.
pub landing-marked :
    (to_base58 : PublicKey → List ℕ) (connected : Bool) (key : Option PublicKey)
    → All
        (λ link. (tab : Tab) × (marked link nav ≡ tab ∷ []))
        (landing to_base58 connected key).links
      × ((connected ≡ false) → (landing to_base58 connected key).links ≡ [])
unfolding landing is_active
landing-marked to_base58 true key = (((policy, refl), ((audit, refl), tt)), λ h. cc)
landing-marked to_base58 false key = (tt, λ h. refl)
