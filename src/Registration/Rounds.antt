-- ===== src/Registration/Rounds.antt =====
-- A round of the loop of register-agents.ts: a settled zone is passed over, and a round that does not
-- fail settles its zone and leaves the others settled.
use risk_claw_sol.Prelude.{
  subst, ℕ, ◌≡◌, sym, ap, ◌∙◌, [], Option, none, some, String, ◌is◌, arith, lookup, eq_iff, eq_refl,
  Option-cases, Bool-cases, ◌⊎◌, inl, inr,
}
use risk_claw_sol.Errors.{ok}
use risk_claw_sol.Config.{AgentEntry}
use risk_claw_sol.Registration.{
  Registry, ZoneSpec, CoreAsset, Office, load_or_create_key, mint_zone, register_zone,
}
use risk_claw_sol.Registration.Core.{Core, core_umi}
use risk_claw_sol.Registration.Minting.{
  IsSettled, IsKeyed, IsAdvance, load_or_create_key-IsKeyed, mint_zone-IsAdvance,
}

module _ (fresh : ℕ → String) where
  -- A settled zone is passed over.
  pub register_zone-settled :
      (z : ZoneSpec) (r : Registry) (o : Office Core)
      → IsSettled z r o
      → register_zone (core_umi fresh) z r o ≡ (ok r, o)
  unfolding register_zone load_or_create_key
  register_zone-settled z r o s =
      ground (arith, s.on_file, s.registered, s.alive, s.owned, eq_refl s.key)

  kept-IsAdvance :
      (z : ZoneSpec) (r : Registry) (o o1 : Office Core) (key : String) (entry : AgentEntry)
      (asset : CoreAsset)
      → IsKeyed z.file o o1 key
      → lookup z.zone r ≡ some entry
      → o1.env.assets entry.mint ≡ some asset
      → asset.owner ≡ key
      → IsAdvance z r o r o1
  kept-IsAdvance z r o o1 key entry asset k registered alive owned = record {
    settled = record {
      key = key;
      entry = entry;
      asset = asset;
      on_file = k.on_file;
      registered = registered;
      alive = alive;
      owned = owned;
    };
    others = λ z' zone file s. record {
      key = s.key;
      entry = s.entry;
      asset = s.asset;
      on_file = k.other_files z'.file file ∙ s.on_file;
      registered = s.registered;
      alive = ap (λ m. m s.entry.mint) k.same_assets ∙ s.alive;
      owned = s.owned;
    };
    saved =
        λ h. ap (λ (v : Option Registry). elim v [ none ↦ [] | some x ↦ x ]) k.same_registry ∙ h;
    same_agents = k.same_agents;
    same_lamports = k.same_lamports;
  }

  -- A round mints, or has found an asset that the zone's key owns.
  register_zone-cases :
      (z : ZoneSpec) (r : Registry) (o o1 : Office Core) (key : String)
      → load_or_create_key (core_umi fresh) z.file o ≡ (ok key, o1)
      → (register_zone (core_umi fresh) z r o ≡ mint_zone (core_umi fresh) z key r o1)
        ⊎ ((entry : AgentEntry) × (asset : CoreAsset) × (lookup z.zone r ≡ some entry)
            × (o1.env.assets entry.mint ≡ some asset)
            × (asset.owner ≡ key)
            × (register_zone (core_umi fresh) z r o ≡ (ok r, o1)))
  unfolding register_zone
  register_zone-cases z r o o1 key keyed = elim (Option-cases (lookup z.zone r)) [
    | inl new ↦ inl (ground (arith, keyed, new))
    | inr (entry, known) ↦ elim (Option-cases (o1.env.assets entry.mint)) [
      | inl gone ↦ inl (ground (arith, keyed, known, gone))
      | inr (asset, there) ↦ elim (Bool-cases (asset.owner is key)) [
        | inl own ↦ inr (
          entry,
          asset,
          known,
          there,
          (eq_iff asset.owner key).0 own,
          ground (arith, keyed, known, there, own),
        )
        | inr other ↦ inl (ground (arith, keyed, known, there, other))
      ]
    ]
  ]

  pub register_zone-IsAdvance :
      (z : ZoneSpec) (r r' : Registry) (o o' : Office Core)
      → register_zone (core_umi fresh) z r o ≡ (ok r', o')
      → IsAdvance z r o r' o'
  register_zone-IsAdvance z r r' o o' finished =
      let (key, o1, loaded, k) = load_or_create_key-IsKeyed fresh z.file o in
      elim (register_zone-cases z r o o1 key loaded) [
        | inl minting ↦ mint_zone-IsAdvance fresh z r r' o o1 o' key k (sym minting ∙ finished)
        | inr (entry, asset, registered, alive, owned, same) ↦
            let both : (ok r, o1) ≡ (ok r', o') = sym same ∙ finished in
            let registry : r ≡ r' = cc both in
            let office : o1 ≡ o' = cc both in
            subst (λ v. IsAdvance z r o v o') registry
              (subst (IsAdvance z r o r) office
                (kept-IsAdvance z r o o1 key entry asset k registered alive owned))
      ]
