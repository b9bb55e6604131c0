-- ===== src/Multisig/Runs.antt =====
-- What a run of create-multisig.ts creates, and that a second run creates another multisig.
use risk_claw_sol.Prelude.{
  ℕ, ◌≤◌, ◌≡◌, ◌≢◌, refl, inl, inr, none, some, [], ◌∷◌, arith, ap, sym, ◌∙◌, subst, ltb,
  Bool-cases,
}
use risk_claw_sol.Types.{PublicKey}
use risk_claw_sol.Errors.{ok, throws, Outcome-cases}
use risk_claw_sol.Seed.{WalletFile}
use risk_claw_sol.Seed.Process.{Call-cases}
use risk_claw_sol.Multisig.{
  Permissions, Squads, Created, created_by, min_balance, create, create_multisig,
}

-- What a run of a creator has done: the creation that it has sent is written out.
pub record IsCreated {E : Type 0} (squads : Squads E) (creator : PublicKey) (e e' : E) (c : Created)
    : Type 0 where
  pub treasury : PublicKey
  pub treasury_read : squads.config_treasury (squads.generate e).1 ≡ ok treasury
  pub located : squads.get_multisig_pda (squads.generate e).0 ≡ ok c.multisig_pda
  pub sent :
      squads.multisig_create
        (record {
          create_key = (squads.generate e).0;
          creator = creator;
          multisig_pda = c.multisig_pda;
          config_authority = none;
          time_lock = 0;
          members = (creator, Permissions.all) ∷ [];
          threshold = 1;
          rent_collector = none;
          treasury = treasury;
        })
        (squads.generate e).1
      ≡ (ok c.sig, e')

module _ {E : Type 0} (squads : Squads E) where
  create-IsCreated :
      (creator : PublicKey) (e e' : E) (c : Created)
      → create squads creator e ≡ (ok c, e')
      → IsCreated squads creator e e' c
  unfolding create
  create-IsCreated creator e e' c h =
      let key : PublicKey = (squads.generate e).0 in
      let e1 : E = (squads.generate e).1 in
      elim (Outcome-cases (squads.get_multisig_pda key)) [
        | inl (t, fails) ↦ ground (arith, fails)
        | inr (pda, located) ↦ elim (Outcome-cases (squads.config_treasury e1)) [
          | inl (t, fails) ↦ ground (arith, located, fails)
          | inr (treasury, read) ↦
              elim (Call-cases (squads.multisig_create (created_by creator key pda treasury) e1)) [
                | inl (t, e2, fails) ↦ ground (arith, located, read, fails)
                | inr (sig, e2, sent) ↦
                    let same : c ≡ record { multisig_pda = pda; sig = sig } =
                      ground (arith, located, read, sent) in
                    let here : e2 ≡ e' = ground (arith, located, read, sent) in
                    subst (λ k. IsCreated squads creator e e' k) (sym same)
                      (record {
                        treasury = treasury;
                        treasury_read = read;
                        located = located;
                        sent =
                            subst
                              (λ s.
                                squads.multisig_create (created_by creator key pda treasury) e1
                                ≡ (ok sig, s))
                              here sent;
                      })
              ]
        ]
      ]

  -- A run that passes had at least 0.1 SOL, that is 100000000 lamports, and has sent one creation: of
  -- the multisig at the address of a key generated in this run, with the wallet as its creator and only
  -- member with all permissions, a threshold of one, no time lock, no configuration authority, no rent
  -- collector, and the treasury of the program's configuration. Its result is that address and the
  -- signature of the creation.
  pub create_multisig-IsCreated :
      (file : WalletFile) (e e' : E) (c : Created)
      → create_multisig squads file e ≡ (ok c, e')
      → (creator : PublicKey) × (balance : ℕ) × (file ≡ some (ok creator))
        × (squads.get_balance creator e ≡ ok balance)
        × (100000000 ≤ balance)
        × IsCreated squads creator e e' c
  unfolding create_multisig
  create_multisig-IsCreated none e e' c h = cc (h)
  create_multisig-IsCreated (some (throws t)) e e' c h = cc (h)
  create_multisig-IsCreated (some (ok creator)) e e' c h =
      elim (Outcome-cases (squads.get_balance creator e)) [
        | inl (t, fails) ↦ ground (arith, fails)
        | inr (balance, read) ↦ elim (Bool-cases (ltb balance min_balance)) [
          | inl poor ↦ ground (arith, read, poor)
          | inr rich ↦ (
            creator,
            balance,
            refl,
            read,
            ground (arith, rich),
            create-IsCreated creator e e' c (ground (arith, read, rich)),
          )
        ]
      ]

  -- A generated key was not generated before; addresses of different keys differ. Then of two runs that
  -- pass, the second, which finds a cluster where the first key is known, creates another multisig.
  pub create_multisig_again :
      (Known : E → PublicKey → Type 0) (file file' : WalletFile) (e e1 e2 e3 : E) (c c' : Created)
      → ((s : E) → ¬ (Known s (squads.generate s).0))
      → ((key key' pda : PublicKey)
          → squads.get_multisig_pda key ≡ ok pda
          → squads.get_multisig_pda key' ≡ ok pda
          → key ≡ key')
      → create_multisig squads file e ≡ (ok c, e1)
      → Known e2 (squads.generate e).0
      → create_multisig squads file' e2 ≡ (ok c', e3)
      → c.multisig_pda ≢ c'.multisig_pda
  create_multisig_again Known file file' e e1 e2 e3 c c' fresh injective first known second same =
      let (creator, balance, _, _, _, made) = create_multisig-IsCreated file e e1 c first in
      let (creator', balance', _, _, _, made') = create_multisig-IsCreated file' e2 e3 c' second in
      let keys : (squads.generate e).0 ≡ (squads.generate e2).0 =
        injective (squads.generate e).0 (squads.generate e2).0 c.multisig_pda made.located
          (made'.located ∙ ap ok (sym same)) in
      fresh e2 (subst (Known e2) keys known)
