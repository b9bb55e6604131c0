-- ===== src/Registration/Minting.antt =====
-- Keys and mints of register-agents.ts: what each leaves of the files and of the chain.
use risk_claw_sol.Prelude.{
  subst, if◌then◌else◌, ℕ, suc, ◌≡◌, ◌≢◌, refl, sym, ap, ◌∙◌, none, some, String, ◌is◌, arith,
  lookup, insert, lookup-insert, lookup-insert_self, eq_iff, eq_refl, Option-cases, inl, inr,
}
use risk_claw_sol.Errors.{ok}
use risk_claw_sol.Config.{AgentEntry}
use risk_claw_sol.Registration.{
  Registry, ZoneSpec, CoreAsset, Office, registry_of, new_asset, load_or_create_key, mint_zone,
}
use risk_claw_sol.Registration.Core.{Core, core_umi}

-- The zone's key is on file, its entry in the registry, and its asset on chain, owned by the key.
pub record IsSettled (z : ZoneSpec) (r : Registry) (o : Office Core) : Type 0 where
  pub key : String
  pub entry : AgentEntry
  pub asset : CoreAsset
  pub on_file : lookup z.file (o.files).keys ≡ some key
  pub registered : lookup z.zone r ≡ some entry
  pub alive : o.env.assets entry.mint ≡ some asset
  pub owned : asset.owner ≡ key

-- What loading or making a key changes.
pub record IsKeyed (file : String) (o o1 : Office Core) (key : String) : Type 0 where
  pub on_file : lookup file (o1.files).keys ≡ some key
  pub other_files : (j : String) → j ≢ file → lookup j (o1.files).keys ≡ lookup j (o.files).keys
  pub same_assets : o1.env.assets ≡ o.env.assets
  pub same_lamports : o1.env.lamports ≡ o.env.lamports
  pub same_registry : (o1.files).registry ≡ (o.files).registry
  pub same_agents : (o1.files).agents ≡ (o.files).agents

-- What a round of the loop that does not fail leaves.
pub record IsAdvance (z : ZoneSpec) (r : Registry) (o : Office Core) (r' : Registry)
    (o' : Office Core) : Type 0 where
  pub settled : IsSettled z r' o'
  pub others :
      (z' : ZoneSpec) → z'.zone ≢ z.zone → z'.file ≢ z.file → IsSettled z' r o → IsSettled z' r' o'
  pub saved : registry_of o.files ≡ r → registry_of o'.files ≡ r'
  pub same_agents : (o'.files).agents ≡ (o.files).agents
  pub same_lamports : o'.env.lamports ≡ o.env.lamports

module _ (fresh : ℕ → String) where
  pub load_or_create_key-IsKeyed :
      (file : String) (o : Office Core)
      → (key : String) × (o1 : Office Core) × (load_or_create_key (core_umi fresh) file o
          ≡ (ok key, o1))
        × IsKeyed file o o1 key
  unfolding load_or_create_key
  load_or_create_key-IsKeyed file o = elim (Option-cases (lookup file (o.files).keys)) [
    | inr (key, there) ↦ (
      key,
      o,
      rw (there, load_or_create_key),
      record {
        on_file = there;
        other_files = λ j h. refl;
        same_assets = refl;
        same_lamports = refl;
        same_registry = refl;
        same_agents = refl;
      },
    )
    | inl missing ↦
        let key : String = fresh o.env.generated in
        (
          key,
          record {
            files = record (o.files) { keys = insert file key (o.files).keys };
            env = record (o.env) { generated = suc o.env.generated };
          },
          rw (missing, load_or_create_key),
          record {
            on_file = lookup-insert_self file key (o.files).keys;
            other_files =
                λ j h. ground (arith, lookup-insert file j key (o.files).keys, eq_iff file j, h);
            same_assets = refl;
            same_lamports = refl;
            same_registry = refl;
            same_agents = refl;
          },
        )
  ]

  abbrev minted_registry : ZoneSpec → String → Registry → Office Core → Registry
  minted_registry z key r o =
      insert z.zone (record { mint = fresh o.env.generated; pubkey = key; name = z.name }) r

  abbrev minted : ZoneSpec → String → Registry → Office Core → Office Core
  minted z key r o = record {
    files = record (o.files) { registry = some (minted_registry z key r o) };
    env = record (o.env) {
      assets = λ a. if a is fresh o.env.generated then some (new_asset z key) else o.env.assets a;
      generated = suc o.env.generated;
    };
  }

  mint_zone-free :
      (z : ZoneSpec) (key : String) (r : Registry) (o : Office Core)
      → o.env.assets (fresh o.env.generated) ≡ none
      → mint_zone (core_umi fresh) z key r o ≡ (ok (minted_registry z key r o), minted z key r o)
  unfolding mint_zone
  mint_zone-free z key r o free = ground (arith, free)

  -- An asset that is there is there after a mint.
  still_alive :
      (z : ZoneSpec) (key : String) (r : Registry) (o : Office Core) (mint : String)
      (asset : CoreAsset)
      → o.env.assets (fresh o.env.generated) ≡ none
      → o.env.assets mint ≡ some asset
      → (minted z key r o).env.assets mint ≡ some asset
  still_alive z key r o mint asset free alive =
      ground (arith, free, alive, eq_iff mint (fresh o.env.generated))

  minted-IsAdvance :
      (z : ZoneSpec) (r : Registry) (o o1 : Office Core) (key : String)
      → IsKeyed z.file o o1 key
      → o1.env.assets (fresh o1.env.generated) ≡ none
      → IsAdvance z r o (minted_registry z key r o1) (minted z key r o1)
  minted-IsAdvance z r o o1 key k free =
      let mint : String = fresh o1.env.generated in
      let entry : AgentEntry = record { mint = mint; pubkey = key; name = z.name } in
      record {
        settled = record {
          key = key;
          entry = entry;
          asset = new_asset z key;
          on_file = k.on_file;
          registered = lookup-insert_self z.zone entry r;
          alive = rw (eq_refl mint) refl;
          owned = refl;
        };
        others = λ z' zone file s. record {
          key = s.key;
          entry = s.entry;
          asset = s.asset;
          on_file = k.other_files z'.file file ∙ s.on_file;
          registered = ground (
            arith,
            lookup-insert z.zone z'.zone entry r,
            eq_iff z.zone z'.zone,
            zone,
            s.registered,
          );
          alive =
              still_alive z key r o1 s.entry.mint s.asset free
                (ap (λ m. m s.entry.mint) k.same_assets ∙ s.alive);
          owned = s.owned;
        };
        saved = λ h. refl;
        same_agents = k.same_agents;
        same_lamports = k.same_lamports;
      }

  -- A mint that does not fail.
  pub mint_zone-IsAdvance :
      (z : ZoneSpec) (r r' : Registry) (o o1 o' : Office Core) (key : String)
      → IsKeyed z.file o o1 key
      → mint_zone (core_umi fresh) z key r o1 ≡ (ok r', o')
      → IsAdvance z r o r' o'
  unfolding mint_zone
  mint_zone-IsAdvance z r r' o o1 o' key k finished =
      elim (Option-cases (o1.env.assets (fresh o1.env.generated))) [
        | inr (asset, used) ↦ absurd (ground (arith, used, finished))
        | inl free ↦
            let same : (ok (minted_registry z key r o1), minted z key r o1) ≡ (ok r', o') =
              sym (mint_zone-free z key r o1 free) ∙ finished in
            let registry : minted_registry z key r o1 ≡ r' = cc same in
            let office : minted z key r o1 ≡ o' = cc same in
            subst (λ v. IsAdvance z r o v o') registry
              (subst (IsAdvance z r o (minted_registry z key r o1)) office
                (minted-IsAdvance z r o o1 key k free))
      ]
