-- ===== src/Tests/Cards.antt =====
-- The cards of the audit page, with texts of one letter for addresses.
use risk_claw_sol.Prelude.{
  ◌≡◌, refl, ap, sym, ◌∙◌, arith, [], ◌∷◌, some, String, codes, length, lookup, ◌is◌, eq_iff,
  if◌then◌else◌, Bool-cases, inl, inr,
}
use risk_claw_sol.Types.{PublicKey, read, compute, execute}
use risk_claw_sol.Errors.{Outcome, ok, throws, error}
use risk_claw_sol.Config.{Config, AgentEntry}
use risk_claw_sol.Ids.{Web3, Ids, load_ids}
use risk_claw_sol.Seed.{preflight, check_populated, check_agent, parse_agent}
use risk_claw_sol.App.Trail.Cards.{agents, configured, agents-configured}
use risk_claw_sol.Tests.Pages.{key_text}

abbrev read_key : String → Outcome PublicKey
read_key text =
    if key_text (length (codes text)) is text
    then ok (length (codes text))
    else throws (error "Invalid public key input")

abbrev web3 : Web3
web3 = record {
  new_public_key = read_key;
  find_program_address = λ seeds program. ok (program, 255);
}

prints : (text : String) (key : PublicKey) → read_key text ≡ ok key → key_text key ≡ text
prints text key h = elim (Bool-cases (key_text (length (codes text)) is text)) [
  | inl good ↦
      let same : length (codes text) ≡ key = ground (arith, good) in
      ap key_text (sym same) ∙ (eq_iff (key_text (length (codes text))) text).0 good
  | inr bad ↦ ground (arith, bad)
]

abbrev entry : String → AgentEntry
entry pubkey = record { mint = "kk"; pubkey = pubkey; name = "Agent" }

abbrev config : Config
config = record {
  squads_v4_program_id = "kkkkk";
  dev_multisig = some "k";
  risk_policy_program_id = some "kkkk";
  swig_delegation_program_id = some "kkkkkk";
  devnet_agents = ("read", entry "k") ∷ ("compute", entry "kk") ∷ ("execute", entry "kkk") ∷ [];
}

passes : preflight web3 config ≡ ok tt
unfolding preflight check_populated check_agent parse_agent lookup
passes = refl

agents-configured_example :
    (ids : Ids) × (observer analyst guardian : AgentEntry) × (load_ids web3 config ≡ ok ids)
    × (lookup "read" config.devnet_agents ≡ some observer)
    × (lookup "compute" config.devnet_agents ≡ some analyst)
    × (lookup "execute" config.devnet_agents ≡ some guardian)
    × (agents key_text ids.agent_registry
        ≡ ok (
            configured key_text read observer
            ∷ configured key_text compute analyst
            ∷ configured key_text execute guardian
            ∷ []))
agents-configured_example = agents-configured key_text web3 prints config 5 passes refl
