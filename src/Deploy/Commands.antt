-- ===== src/Deploy/Commands.antt =====
-- The commands of deploy-devnet.ts in a row, none after one that fails, and the reading of a keypair's key.
use risk_claw_sol.Prelude.{
  ◌≡◌, refl, ap, inl, inr, false, List, [], ◌∷◌, ◌++◌, All, String, arith, Bool-cases,
}
use risk_claw_sol.Errors.{Outcome, ok, throws, Thrown, Outcome-cases, error}
use risk_claw_sol.Deploy.{
  Machine, Outside, Deploying, ◌>>◌, sh, pubkey_command, read_keypair_pubkey, key_of,
}

abbrev pub commands : List String
commands =
    "solana config set --url https://api.devnet.solana.com" ∷ "anchor build" ∷ "anchor keys sync"
    ∷ "anchor build" ∷ "anchor deploy --provider.cluster devnet --no-idl" ∷ []

abbrev pub first_key : String
first_key = "solana-keygen pubkey risk_policy-keypair.json"

abbrev pub second_key : String
second_key = "solana-keygen pubkey swig_delegation-keypair.json"

-- The commands that read the keys of the two programs.
abbrev pub key_commands : List String
key_commands = first_key ∷ second_key ∷ []

-- The machine after these commands.
abbrev pub after_commands : List String → Machine → Machine
after_commands [] m = m
after_commands (c ∷ cs) m = after_commands cs (record m { ran = c ∷ m.ran })

module _ (outside : Outside) where
  abbrev pub Succeeds : String → Type 0
  Succeeds c = outside.exec c ≡ ok tt

  abbrev pub steps : List String → Deploying (Unit {0}) → Deploying (Unit {0})
  steps [] next = next
  steps (c ∷ cs) next = sh outside false c >> steps cs next

  -- All commands have run, or the last one that has run has failed.
  pub data Steps (cs : List String) (next : Deploying (Unit {0})) (m : Machine)
      (r : Outcome (Unit {0}) × Machine) : Type 0 where
    ran_all : All Succeeds cs → r ≡ next (after_commands cs m) → Steps cs next m r
    stopped :
        (done rest : List String) (c : String) (t : Thrown)
        → cs ≡ done ++ (c ∷ rest)
        → All Succeeds done
        → outside.exec c ≡ throws t
        → r ≡ (throws t, after_commands (done ++ (c ∷ [])) m)
        → Steps cs next m r

  pub steps-Steps :
      (cs : List String) (next : Deploying (Unit {0})) (m : Machine)
      → Steps cs next m (steps cs next m)
  unfolding sh
  steps-Steps [] next m = ran_all tt refl
  steps-Steps (c ∷ cs) next m = elim (Outcome-cases (outside.exec c)) [
    | inl (t, fails) ↦ stopped [] cs c t refl tt fails (ground (arith, fails))
    | inr (_, works) ↦ elim (steps-Steps cs next (record m { ran = c ∷ m.ran })) [
      | ran_all succeed last ↦ ran_all (works, succeed) (ground (arith, works, last))
      | stopped done rest d t split succeed fails last ↦
          stopped (c ∷ done) rest d t (ap (λ l. c ∷ l) split) (works, succeed) fails
            (ground (arith, works, last))
    ]
  ]

  -- How the reading of a keypair's key ends.
  pub data KeyRead (file : String) (m : Machine) (r : Outcome String × Machine) : Type 0 where
    key_read :
        (key : String)
        → outside.keypair_pubkey file ≡ ok key
        → r ≡ (ok key, record m { ran = pubkey_command file ∷ m.ran })
        → KeyRead file m r
    not_read :
        (t : Thrown)
        → r ≡ (throws t, record m { ran = pubkey_command file ∷ m.ran })
        → KeyRead file m r
    not_there : (t : Thrown) → r ≡ (throws t, m) → KeyRead file m r

  pub key_of-KeyRead :
      (pretend file : String) (m : Machine) → KeyRead file m (key_of outside false pretend file m)
  unfolding key_of read_keypair_pubkey
  key_of-KeyRead pretend file m = elim (Bool-cases (outside.has_keypair file)) [
    | inr missing ↦
        not_there (error "expected keypair; did anchor build/keys sync run?") (rw missing refl)
    | inl there ↦ elim (Outcome-cases (outside.keypair_pubkey file)) [
      | inl (t, fails) ↦ not_read t (rw (there, fails) refl)
      | inr (key, read) ↦ key_read key read (rw (there, read) refl)
    ]
  ]
