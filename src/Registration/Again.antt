-- ===== src/Registration/Again.antt =====
-- A run of register-agents.ts that succeeds settles every zone, and a run after it changes nothing.
use risk_claw_sol.Prelude.{
  ℕ, ◌≤◌, ◌≡◌, ◌≢◌, refl, sym, ap, ◌∙◌, subst, [], ◌∷◌, Bool-cases, ltb, ◌⊎◌, inl, inr, arith,
  lookup, String, ◌is◌, eq_iff, false,
}
use risk_claw_sol.Errors.{Outcome, ok, throws, Thrown, error}
use risk_claw_sol.Registration.{
  Registry, ZoneSpec, read_zone, compute_zone, execute_zone, AgentsBlock, absent, malformed, block,
  Office, Script, ◌>>=◌, ◌>>◌, done, register_and_patch, registry_of, register_zone, register_zones,
  register_agents, patch_config,
}
use risk_claw_sol.Registration.Core.{Core, core_umi}
use risk_claw_sol.Registration.Minting.{IsSettled}
use risk_claw_sol.Registration.Rounds.{register_zone-settled, register_zone-IsAdvance}

-- A chain of two scripts that succeeds.
bind-ok :
    {E : Type 0} {A B : Type 0} (act : Script E A) (next : A → Script E B) (o o' : Office E) (b : B)
    → (act >>= next) o ≡ (ok b, o')
    → (a : A) × (o1 : Office E) × (act o ≡ (ok a, o1)) × (next a o1 ≡ (ok b, o'))
bind-ok {E = E} {A = A} {B = B} act next o o' b finished = split (act o) refl finished
  where
    split :
        (x : Outcome A × Office E)
        → act o ≡ x
        → elim x.0 [ ok a ↦ next a x.1 | throws t ↦ (throws t, x.1) ] ≡ (ok b, o')
        → (a : A) × (o1 : Office E) × (act o ≡ (ok a, o1)) × (next a o1 ≡ (ok b, o'))
    split (ok a, o1) same rest = (a, o1, same, rest)
    split (throws t, o1) same rest = cc rest

differ : (a b : String) → (a is b) ≡ false → a ≢ b
differ a b apart same = ground (arith, (eq_iff a b).1 same, apart)

read_zone-compute_zone : (read_zone.zone ≢ compute_zone.zone) × (read_zone.file ≢ compute_zone.file)
read_zone-compute_zone =
    (differ read_zone.zone compute_zone.zone refl, differ read_zone.file compute_zone.file refl)

read_zone-execute_zone : (read_zone.zone ≢ execute_zone.zone) × (read_zone.file ≢ execute_zone.file)
read_zone-execute_zone =
    (differ read_zone.zone execute_zone.zone refl, differ read_zone.file execute_zone.file refl)

compute_zone-execute_zone :
    (compute_zone.zone ≢ execute_zone.zone) × (compute_zone.file ≢ execute_zone.file)
compute_zone-execute_zone = (
  differ compute_zone.zone execute_zone.zone refl,
  differ compute_zone.file execute_zone.file refl,
)

module _ (fresh : ℕ → String) where
  -- Every zone of the script is settled, the registry file and the configuration hold the registry.
  pub record IsRegistered (r : Registry) (o : Office Core) : Type 0 where
    pub read_settled : IsSettled read_zone r o
    pub compute_settled : IsSettled compute_zone r o
    pub execute_settled : IsSettled execute_zone r o
    pub on_file : registry_of o.files ≡ r
    pub configured : (o.files).agents ≡ block r

  -- The zones and the registry file, before the configuration is patched.
  abbrev AllSettled : Registry → Office Core → Type 0
  AllSettled r o =
      IsSettled read_zone r o
      × IsSettled compute_zone r o
      × IsSettled execute_zone r o
      × (registry_of o.files ≡ r)

  -- Three rounds that succeed.
  three_rounds :
      (r r' : Registry) (o o' : Office Core)
      → register_zones (core_umi fresh) (read_zone ∷ compute_zone ∷ execute_zone ∷ []) r o
        ≡ (ok r', o')
      → registry_of o.files ≡ r
      → AllSettled r' o' × ((o'.files).agents ≡ (o.files).agents)
  unfolding register_zones
  three_rounds r r' o o' finished loaded =
      let (r1, o1, first, rest1) =
        bind-ok (register_zone (core_umi fresh) read_zone r)
          (λ v. register_zones (core_umi fresh) (compute_zone ∷ execute_zone ∷ []) v) o o' r'
          finished in
      let (r2, o2, second, rest2) =
        bind-ok (register_zone (core_umi fresh) compute_zone r1)
          (λ v. register_zones (core_umi fresh) (execute_zone ∷ []) v) o1 o' r' rest1 in
      let (r3, o3, third, rest3) =
        bind-ok (register_zone (core_umi fresh) execute_zone r2)
          (λ v. register_zones (core_umi fresh) [] v) o2 o' r' rest2 in
      let a1 = register_zone-IsAdvance fresh read_zone r r1 o o1 first in
      let a2 = register_zone-IsAdvance fresh compute_zone r1 r2 o1 o2 second in
      let a3 = register_zone-IsAdvance fresh execute_zone r2 r3 o2 o3 third in
      let registry : r3 ≡ r' = cc rest3 in
      let office : o3 ≡ o' = cc rest3 in
      let all : AllSettled r3 o3 = (
        a3.others read_zone read_zone-execute_zone.0 read_zone-execute_zone.1
            (a2.others read_zone read_zone-compute_zone.0 read_zone-compute_zone.1 a1.settled),
        a3.others compute_zone compute_zone-execute_zone.0 compute_zone-execute_zone.1 a2.settled,
        a3.settled,
        a3.saved (a2.saved (a1.saved loaded)),
      ) in
      (
        subst (λ v. AllSettled v o') registry (subst (AllSettled r3) office all),
        ap (λ (v : Office Core). (v.files).agents) (sym office)
            ∙ a3.same_agents
            ∙ a2.same_agents
            ∙ a1.same_agents,
      )

  -- The registry in a run's office, after the balance is known.
  abbrev zones_after : Office Core → Outcome Registry × Office Core
  zones_after o =
      register_zones (core_umi fresh) (read_zone ∷ compute_zone ∷ execute_zone ∷ [])
        (registry_of o.files) o

  -- With too little on the wallet the run throws; else it goes on from the registry on file.
  run-cases :
      (o : Office Core)
      → ((t : Thrown) × (register_agents (core_umi fresh) o ≡ (throws t, o)))
        ⊎ (register_agents (core_umi fresh) o
            ≡ register_and_patch (core_umi fresh) (registry_of o.files) o)
  unfolding register_agents
  run-cases o = elim (Bool-cases (ltb o.env.lamports 50000000)) [
    | inl poor ↦
        inl (error "wallet needs >= 0.05 devnet SOL for three Core mints", ground (arith, poor))
    | inr rich ↦ inr (ground (arith, rich))
  ]

  rounds_of :
      (r : Registry) (o o' : Office Core)
      → register_and_patch (core_umi fresh) (registry_of o.files) o ≡ (ok r, o')
      → (o1 : Office Core) × (zones_after o ≡ (ok r, o1)) × (patch_config r o1 ≡ (ok tt, o'))
  unfolding register_and_patch
  rounds_of r o o' finished =
      let (r1, o1, zones, rest) =
        bind-ok
          (λ v.
            register_zones (core_umi fresh) (read_zone ∷ compute_zone ∷ execute_zone ∷ [])
              (registry_of o.files) v)
          (λ v. patch_config v >> done v) o o' r finished in
      let (u, o2, patched, last) = bind-ok (patch_config r1) (λ v. done r1) o1 o' r rest in
      let registry : r1 ≡ r = cc last in
      let office : o2 ≡ o' = cc last in
      (
        o1,
        zones ∙ ap (λ v. (ok v, o1)) registry,
        subst (λ v. patch_config v o1 ≡ (ok tt, o')) registry
            (subst (λ v. patch_config r1 o1 ≡ (ok tt, v)) office patched),
      )

  -- A zone stays settled where the key files and the assets are the same.
  moved :
      (z : ZoneSpec) (r : Registry) (o o' : Office Core)
      → (o'.files).keys ≡ (o.files).keys
      → o'.env.assets ≡ o.env.assets
      → IsSettled z r o
      → IsSettled z r o'
  moved z r o o' keys assets s = record {
    key = s.key;
    entry = s.entry;
    asset = s.asset;
    on_file = ap (lookup z.file) keys ∙ s.on_file;
    registered = s.registered;
    alive = ap (λ m. m s.entry.mint) assets ∙ s.alive;
    owned = s.owned;
  }

  abbrev configured_office : Registry → Office Core → Office Core
  configured_office r o = record o { files = record (o.files) { agents = block r } }

  patch_config-ok :
      (r : Registry) (o o' : Office Core)
      → patch_config r o ≡ (ok tt, o')
      → configured_office r o ≡ o'
  unfolding patch_config
  patch_config-ok r o o' written = by_block o.files.agents refl
    where
      by_block : (b : AgentsBlock) → o.files.agents ≡ b → configured_office r o ≡ o'
      by_block absent h = ground (arith, written, h)
      by_block malformed h = ground (arith, written, h)
      by_block (block old) h = ground (arith, written, h)

  patched-IsRegistered :
      (r : Registry) (o1 o' : Office Core)
      → patch_config r o1 ≡ (ok tt, o')
      → AllSettled r o1
      → IsRegistered r o'
  patched-IsRegistered r o1 o' written (a, b, c, d) =
      subst (IsRegistered r) (patch_config-ok r o1 o' written) (record {
        read_settled = moved read_zone r o1 (configured_office r o1) refl refl a;
        compute_settled = moved compute_zone r o1 (configured_office r o1) refl refl b;
        execute_settled = moved execute_zone r o1 (configured_office r o1) refl refl c;
        on_file = d;
        configured = refl;
      })

  -- A run that does not fail leaves every zone with a key on file, an entry in the registry, and an
  -- asset on chain that the key owns; the registry file and the configuration hold that registry.
  pub register_agents-IsRegistered :
      (r : Registry) (o o' : Office Core)
      → register_agents (core_umi fresh) o ≡ (ok r, o')
      → IsRegistered r o'
  register_agents-IsRegistered r o o' finished = elim (run-cases o) [
    | inl (t, thrown) ↦ absurd (cc (thrown, finished))
    | inr same ↦
        let (o1, zones, written) = rounds_of r o o' (sym same ∙ finished) in
        patched-IsRegistered r o1 o' written
          (three_rounds (registry_of o.files) r o o1 zones refl).0
  ]

  -- The office with another balance on the wallet.
  abbrev pub funded : ℕ → Office Core → Office Core
  funded lamports o = record o { env = record (o.env) { lamports = lamports } }

  -- After a run that does not fail, a run with enough on the wallet mints nothing and writes nothing new:
  -- the files and the chain stay as they are.
  pub register_agents_again :
      (r : Registry) (o o' : Office Core) (lamports : ℕ)
      → register_agents (core_umi fresh) o ≡ (ok r, o')
      → 50000000 ≤ lamports
      → register_agents (core_umi fresh) (funded lamports o') ≡ (ok r, funded lamports o')
  unfolding register_agents register_and_patch register_zones patch_config
  register_agents_again r o o' lamports finished rich =
      let k = register_agents-IsRegistered r o o' finished in
      let o2 : Office Core = funded lamports o' in
      ground (
        arith,
        k.on_file,
        k.configured,
        register_zone-settled fresh read_zone r o2
            (moved read_zone r o' o2 refl refl k.read_settled),
        register_zone-settled fresh compute_zone r o2
            (moved compute_zone r o' o2 refl refl k.compute_settled),
        register_zone-settled fresh execute_zone r o2
            (moved execute_zone r o' o2 refl refl k.execute_settled),
      )
