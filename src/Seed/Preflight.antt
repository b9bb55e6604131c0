-- ===== src/Seed/Preflight.antt =====
-- What a preflight that passes has established: the configuration that the other scripts load, and a
-- funded wallet.
use risk_claw_sol.Prelude.{
  ◌≡◌, refl, inl, inr, true, false, List, [], Option, none, some, String, ◌is◌, arith, lookup,
  insert, Bool-cases, Option-cases, ap, sym, ◌∙◌,
}
use risk_claw_sol.Types.{PublicKey, Zone, read, compute, execute}
use risk_claw_sol.Errors.{ok, bind-ok, bind-elim, bind-step}
use risk_claw_sol.Config.{Config, AgentEntry}
use risk_claw_sol.Ids.{
  Web3, Ids, AgentRegistryEntry, zone_name, load_ids, optional_key, register_zone, agent_registry,
}
use risk_claw_sol.Client.{is_some}
use risk_claw_sol.Seed.{check_populated, check_agent, parse_agent, preflight}

-- A text of the configuration that is set, and is an address.
pub record IsAddress (web3 : Web3) (value : Option String) : Type 0 where
  pub text : String
  pub key : PublicKey
  pub set : value ≡ some text
  pub nonempty : (text is "") ≡ false
  pub parsed : web3.new_public_key text ≡ ok key

pub record IsAgent (web3 : Web3) (agents : List (String × AgentEntry)) (zone : String)
    : Type 0 where
  pub entry : AgentEntry
  pub mint : PublicKey
  pub key : PublicKey
  pub there : lookup zone agents ≡ some entry
  pub mint_parsed : web3.new_public_key entry.mint ≡ ok mint
  pub key_parsed : web3.new_public_key entry.pubkey ≡ ok key

pub record IsReady (web3 : Web3) (config : Config) : Type 0 where
  pub risk_policy : IsAddress web3 config.risk_policy_program_id
  pub swig : IsAddress web3 config.swig_delegation_program_id
  pub multisig : IsAddress web3 config.dev_multisig
  pub observer : IsAgent web3 config.devnet_agents "read"
  pub analyst : IsAgent web3 config.devnet_agents "compute"
  pub guardian : IsAgent web3 config.devnet_agents "execute"

check_populated-ok :
    (label : String) (value : Option String) (text : String)
    → check_populated label value ≡ ok text
    → (value ≡ some text) × ((text is "") ≡ false)
unfolding check_populated
check_populated-ok label none text h = cc (h)
check_populated-ok label (some v) text h = elim (Bool-cases (v is "")) [
  | inl empty ↦ ground (arith, empty)
  | inr full ↦
      let same : v ≡ text = ground (arith, full) in
      (ap some same, ap (λ t. t is "") (sym same) ∙ full)
]

check_agent-ok :
    (agents : List (String × AgentEntry)) (zone : String) (entry : AgentEntry)
    → check_agent agents zone ≡ ok entry
    → lookup zone agents ≡ some entry
unfolding check_agent
check_agent-ok agents zone entry h = elim (Option-cases (lookup zone agents)) [
  | inl missing ↦ ground (arith, missing)
  | inr (e, found) ↦ ground (arith, found)
]

module _ (web3 : Web3) where
  parse_agent-ok :
      (entry : AgentEntry)
      → parse_agent web3 entry ≡ ok tt
      → (mint key : PublicKey) × (web3.new_public_key entry.mint ≡ ok mint)
        × (web3.new_public_key entry.pubkey ≡ ok key)
  unfolding parse_agent
  parse_agent-ok entry h =
      let (mint, mint_parsed, rest) = bind-ok (web3.new_public_key entry.mint) _ tt h in
      let (key, key_parsed, done) = bind-ok (web3.new_public_key entry.pubkey) _ tt rest in
      (mint, key, mint_parsed, key_parsed)

  IsAddress-of :
      (label text : String) (key : PublicKey) (value : Option String)
      → check_populated label value ≡ ok text
      → web3.new_public_key text ≡ ok key
      → IsAddress web3 value
  IsAddress-of label text key value populated parsed =
      let (set, nonempty) = check_populated-ok label value text populated in
      record { text = text; key = key; set = set; nonempty = nonempty; parsed = parsed }

  IsAgent-of :
      (agents : List (String × AgentEntry)) (zone : String) (entry : AgentEntry)
      → check_agent agents zone ≡ ok entry
      → parse_agent web3 entry ≡ ok tt
      → IsAgent web3 agents zone
  IsAgent-of agents zone entry found parsed =
      let (mint, key, mint_parsed, key_parsed) = parse_agent-ok entry parsed in
      record {
        entry = entry;
        mint = mint;
        key = key;
        there = check_agent-ok agents zone entry found;
        mint_parsed = mint_parsed;
        key_parsed = key_parsed;
      }

  pub preflight-IsReady : (config : Config) → preflight web3 config ≡ ok tt → IsReady web3 config
  unfolding preflight
  preflight-IsReady config h =
      bind-elim (check_populated _ config.risk_policy_program_id) _ tt h λ risk_policy p1 h1.
        bind-elim (check_populated _ config.swig_delegation_program_id) _ tt h1 λ swig p2 h2.
          bind-elim (check_populated _ config.dev_multisig) _ tt h2 λ multisig p3 h3.
            bind-elim (check_agent config.devnet_agents "read") _ tt h3 λ observer a1 h4.
              bind-elim (check_agent config.devnet_agents "compute") _ tt h4 λ analyst a2 h5.
                bind-elim (check_agent config.devnet_agents "execute") _ tt h5 λ guardian a3 h6.
                  bind-elim (web3.new_public_key risk_policy) _ tt h6 λ k1 q1 h7.
                    bind-elim (web3.new_public_key swig) _ tt h7 λ k2 q2 h8.
                      bind-elim (web3.new_public_key multisig) _ tt h8 λ k3 q3 h9.
                        bind-elim (parse_agent web3 observer) _ tt h9 λ _ r1 h10.
                          bind-elim (parse_agent web3 analyst) _ tt h10 λ _ r2 r3. record {
                            risk_policy =
                                IsAddress-of _ risk_policy k1 config.risk_policy_program_id p1 q1;
                            swig = IsAddress-of _ swig k2 config.swig_delegation_program_id p2 q2;
                            multisig = IsAddress-of _ multisig k3 config.dev_multisig p3 q3;
                            observer = IsAgent-of config.devnet_agents "read" observer a1 r1;
                            analyst = IsAgent-of config.devnet_agents "compute" analyst a2 r2;
                            guardian = IsAgent-of config.devnet_agents "execute" guardian a3 r3;
                          }

  optional_key-IsAddress :
      (value : Option String) (a : IsAddress web3 value) → optional_key web3 value ≡ ok (some a.key)
  unfolding optional_key
  optional_key-IsAddress value a = rw (a.set, a.nonempty, a.parsed) refl

  zone-loads :
      (agents : List (String × AgentEntry)) (zone : Zone) (out : List (String × AgentRegistryEntry))
      → IsAgent web3 agents (zone_name zone)
      → (out' : List (String × AgentRegistryEntry)) × (register_zone web3 agents zone out ≡ ok out')
  unfolding register_zone
  zone-loads agents zone out a = (
    insert (zone_name zone) (record { mint = a.mint; pubkey = a.key; name = (a.entry).name }) out,
    ground (arith, a.there, a.mint_parsed, a.key_parsed),
  )

  registry-loads :
      (agents : List (String × AgentEntry))
      (first second third : List (String × AgentRegistryEntry))
      → register_zone web3 agents read [] ≡ ok first
      → register_zone web3 agents compute first ≡ ok second
      → register_zone web3 agents execute second ≡ ok third
      → agent_registry web3 agents ≡ ok third
  unfolding agent_registry
  registry-loads agents first second third z1 z2 z3 =
      bind-step (register_zone web3 agents read []) _ first (ok third) z1
        (bind-step (register_zone web3 agents compute first) _ second (ok third) z2 z3)

  -- A configuration that passes the preflight, and names a Squads program, loads: the client's module
  -- has both programs and the multisig, and an agent for each zone.
  pub preflight-load_ids :
      (config : Config) (squads : PublicKey)
      → preflight web3 config ≡ ok tt
      → web3.new_public_key config.squads_v4_program_id ≡ ok squads
      → (ids : Ids) × (load_ids web3 config ≡ ok ids)
        × (is_some ids.risk_policy_program_id ≡ true)
        × (is_some ids.swig_delegation_program_id ≡ true)
        × (is_some ids.dev_multisig ≡ true)
  unfolding load_ids
  preflight-load_ids config squads h parsed =
      let r = preflight-IsReady config h in
      let agents = config.devnet_agents in
      let (first, z1) = zone-loads agents read [] r.observer in
      let (second, z2) = zone-loads agents compute first r.analyst in
      let (third, z3) = zone-loads agents execute second r.guardian in
      let ids : Ids = record {
        squads_v4_program_id = squads;
        risk_policy_program_id = some r.risk_policy.key;
        swig_delegation_program_id = some r.swig.key;
        dev_multisig = some r.multisig.key;
        agent_registry = third;
      } in
      (
        ids,
        bind-step (web3.new_public_key config.squads_v4_program_id) _ squads (ok ids) parsed (
            bind-step (optional_key web3 config.risk_policy_program_id) _ (some r.risk_policy.key)
              (ok ids) (optional_key-IsAddress config.risk_policy_program_id r.risk_policy)
              (bind-step (optional_key web3 config.swig_delegation_program_id) _ (some r.swig.key)
                (ok ids) (optional_key-IsAddress config.swig_delegation_program_id r.swig)
                (bind-step (optional_key web3 config.dev_multisig) _ (some r.multisig.key) (ok ids)
                  (optional_key-IsAddress config.dev_multisig r.multisig)
                  (bind-step (agent_registry web3 agents) _ third (ok ids)
                    (registry-loads agents first second third z1 z2 z3) refl)))),
        refl,
        refl,
        refl,
      )
