-- ===== src/Verify/Checks.antt =====
-- What it means that verify-onchain.ts passes, and what it does not look at.
use risk_claw_sol.Prelude.{
  ℕ, ◌≡◌, refl, ap, ◌∙◌, inl, inr, Bool, true, false, List, [], ◌∷◌, Option, none, some, String,
  ◌==◌, ==_iff, eq_iff, arith, lookup, take, drop, Option-cases,
}
use risk_claw_sol.Types.{PublicKey}
use risk_claw_sol.Errors.{Outcome, ok, throws, bind-ok}
use risk_claw_sol.Config.{AgentEntry}
use risk_claw_sol.Encrypt.{stub_tag}
use risk_claw_sol.Ids.{Web3, Ids, derive_risk_policy_pda}
use risk_claw_sol.Programs.RiskPolicy.{RiskPolicy}
use risk_claw_sol.Registration.{CoreAsset}
use risk_claw_sol.Smoke.{same_bytes}
use risk_claw_sol.Verify.{
  AccountInfo, View, Report, required, expect, check_program, check_multisig, check_tag,
  check_policy, check_agent, verify_onchain, has_zone, fetched_or_fail,
}

ok-injective : {A : Type 0} {a b : A} → ok a ≡ ok b → a ≡ b
ok-injective same = cc same

required-ok :
    {A : Type 0} (reason : String) (o : Option A) (a : A) → required reason o ≡ ok a → o ≡ some a
required-ok reason none a passed = cc passed
required-ok reason (some b) a passed = cc passed

expect-ok : (b : Bool) (reason : String) → expect b reason ≡ ok tt → b ≡ true
expect-ok true reason passed = refl
expect-ok false reason passed = cc passed

same_bytes-≡ : (a b : List ℕ) → same_bytes a b ≡ true → a ≡ b
same_bytes-≡ [] [] same = refl
same_bytes-≡ [] (y ∷ b) same = cc same
same_bytes-≡ (x ∷ a) [] same = cc same
same_bytes-≡ (x ∷ a) (y ∷ b) same = ground (arith, same_bytes-≡ a b)

module _ (view : View) where
  -- An account that is there.
  abbrev pub IsExecutable : PublicKey → Type 0
  IsExecutable pk =
      (info : AccountInfo) × (view.get_account_info pk ≡ ok (some info)) × (info.executable ≡ true)

  abbrev pub IsOwnedBy : PublicKey → PublicKey → Type 0
  IsOwnedBy owner pk =
      (info : AccountInfo) × (view.get_account_info pk ≡ ok (some info)) × (info.owner ≡ owner)

  -- The zone is in the registry, and its asset on chain carries the zone.
  abbrev pub HasAgent : List (String × AgentEntry) → String → Type 0
  HasAgent agents zone =
      (entry : AgentEntry) × (asset : CoreAsset) × (lookup zone agents ≡ some entry)
      × (view.fetch_asset entry.mint ≡ ok asset)
      × (lookup "zone" asset.attributes ≡ some zone)

  check_program-ok : (pk : PublicKey) → check_program view pk ≡ ok tt → IsExecutable pk
  unfolding check_program
  check_program-ok pk passed =
      let (found, got, rest) = bind-ok (view.get_account_info pk) _ tt passed in
      let (info, there, last) = bind-ok (required "program not found on devnet" found) _ tt rest in
      (
        info,
        got ∙ ap ok (required-ok "program not found on devnet" found info there),
        expect-ok info.executable "program is not executable" last,
      )

  check_multisig-ok :
      (squads multisig : PublicKey)
      → check_multisig view squads multisig ≡ ok tt
      → IsOwnedBy squads multisig
  unfolding check_multisig
  check_multisig-ok squads multisig passed =
      let (found, got, rest) = bind-ok (view.get_account_info multisig) _ tt passed in
      let (info, there, last) = bind-ok (required "multisig not on devnet" found) _ tt rest in
      (
        info,
        got ∙ ap ok (required-ok "multisig not on devnet" found info there),
        (==_iff info.owner squads).0
            (expect-ok (info.owner == squads) "multisig owner mismatch" last),
      )

  fetched-ok :
      (fetched : Outcome CoreAsset) (asset : CoreAsset)
      → fetched_or_fail view fetched ≡ ok asset
      → fetched ≡ ok asset
  fetched-ok (ok a) asset passed = passed
  fetched-ok (throws t) asset passed = cc passed

  has_zone-≡ :
      (zone : String) (value : Option String) → has_zone view zone value ≡ true → value ≡ some zone
  has_zone-≡ zone none same = cc same
  has_zone-≡ zone (some v) same = ap some ((eq_iff v zone).0 same)

  check_agent-ok :
      (agents : List (String × AgentEntry)) (zone : String) (note : Bool)
      → check_agent view agents zone ≡ ok note
      → HasAgent agents zone
  unfolding check_agent
  check_agent-ok agents zone note passed =
      let (entry, listed, rest) =
        bind-ok (required "DEVNET_AGENTS entry missing in config" (lookup zone agents)) _ note
          passed in
      let (asset, fetched, rest2) =
        bind-ok (fetched_or_fail view (view.fetch_asset entry.mint)) _ note rest in
      let (u, zoned, last) =
        bind-ok
          (expect (has_zone view zone (lookup "zone" asset.attributes)) "zone attribute mismatch") _
          note rest2 in
      (
        entry,
        asset,
        required-ok "DEVNET_AGENTS entry missing in config" (lookup zone agents) entry listed,
        fetched-ok (view.fetch_asset entry.mint) asset fetched,
        has_zone-≡ zone (lookup "zone" asset.attributes) (
            expect-ok (has_zone view zone (lookup "zone" asset.attributes))
              "zone attribute mismatch" zoned),
      )

  -- The policy of the wallet on this machine carries the tag of the placeholder packing.
  abbrev pub IsTagged : Web3 → Ids → Type 0
  IsTagged web3 ids =
      (wallet : PublicKey) × (pda : PublicKey × ℕ) × (policy : RiskPolicy) × (view.wallet
        ≡ some wallet)
      × (derive_risk_policy_pda web3 ids wallet ≡ ok pda)
      × (view.fetch_policy pda.0 ≡ ok policy)
      × (take 16 (drop 48 policy.ciphertext_ref) ≡ stub_tag)

  check_tag-ok :
      (policy : RiskPolicy)
      → check_tag view policy ≡ ok tt
      → take 16 (drop 48 policy.ciphertext_ref) ≡ stub_tag
  unfolding check_tag
  check_tag-ok policy passed = same_bytes-≡ (take 16 (drop 48 policy.ciphertext_ref)) stub_tag (
      expect-ok (same_bytes (take 16 (drop 48 policy.ciphertext_ref)) stub_tag) "tag mismatch"
        passed)

  check_policy-ok :
      (web3 : Web3) (ids : Ids) → check_policy view web3 ids ≡ ok true → IsTagged web3 ids
  unfolding check_policy
  check_policy-ok web3 ids passed = elim (Option-cases view.wallet) [
    | inl missing ↦ absurd (ground (arith, missing))
    | inr (wallet, there) ↦
        let (pda, derived, rest) =
          bind-ok (derive_risk_policy_pda web3 ids wallet) _ true (rw there at passed) in
        let (found, got, rest2) = bind-ok (view.get_account_info pda.0) _ true rest in
        elim (Option-cases found) [
          | inl gone ↦ absurd (ground (arith, gone))
          | inr (info, here) ↦
              let (policy, fetched, rest3) =
                bind-ok (view.fetch_policy pda.0) _ true (rw here at rest2) in
              let (u, tagged, last) = bind-ok (check_tag view policy) _ true rest3 in
              (wallet, pda, policy, there, derived, fetched, check_tag-ok policy tagged)
        ]
  ]

  -- What a run that passes has found on chain.
  pub record IsVerified (web3 : Web3) (ids : Ids) (agents : List (String × AgentEntry))
      (report : Report) : Type 0 where
    pub risk_policy : PublicKey
    pub swig : PublicKey
    pub multisig : PublicKey
    pub risk_policy_set : ids.risk_policy_program_id ≡ some risk_policy
    pub swig_set : ids.swig_delegation_program_id ≡ some swig
    pub multisig_set : ids.dev_multisig ≡ some multisig
    pub risk_policy_deployed : IsExecutable risk_policy
    pub swig_deployed : IsExecutable swig
    pub multisig_owned : IsOwnedBy ids.squads_v4_program_id multisig
    pub tagged : report.tag_checked ≡ true → IsTagged web3 ids
    pub read_agent : HasAgent agents "read"
    pub compute_agent : HasAgent agents "compute"
    pub execute_agent : HasAgent agents "execute"

  -- If the script passes, the two programs are on chain and executable, the multisig is owned by Squads,
  -- each zone's asset carries its zone, and, where the report says that the tag was checked, the
  -- wallet's policy carries it.
  pub verify_onchain-IsVerified :
      (web3 : Web3) (ids : Ids) (agents : List (String × AgentEntry)) (report : Report)
      → verify_onchain view web3 ids agents ≡ ok report
      → IsVerified web3 ids agents report
  unfolding verify_onchain
  verify_onchain-IsVerified web3 ids agents report passed =
      let (risk_policy, a, rest1) =
        bind-ok (required "RISK_POLICY_PROGRAM_ID null in config" ids.risk_policy_program_id) _
          report passed in
      let (swig, b, rest2) =
        bind-ok
          (required "SWIG_DELEGATION_PROGRAM_ID null in config" ids.swig_delegation_program_id) _
          report rest1 in
      let (u, c, rest3) = bind-ok (check_program view risk_policy) _ report rest2 in
      let (v, d, rest4) = bind-ok (check_program view swig) _ report rest3 in
      let (multisig, e, rest5) =
        bind-ok (required "DEV_MULTISIG null in config" ids.dev_multisig) _ report rest4 in
      let (x, f, rest6) =
        bind-ok (check_multisig view ids.squads_v4_program_id multisig) _ report rest5 in
      let (tag_checked, g, rest7) = bind-ok (check_policy view web3 ids) _ report rest6 in
      let (read_owner, h, rest8) = bind-ok (check_agent view agents "read") _ report rest7 in
      let (compute_owner, i, rest9) = bind-ok (check_agent view agents "compute") _ report rest8 in
      let (execute_owner, j, last) = bind-ok (check_agent view agents "execute") _ report rest9 in
      record {
        risk_policy = risk_policy;
        swig = swig;
        multisig = multisig;
        risk_policy_set =
            required-ok "RISK_POLICY_PROGRAM_ID null in config" ids.risk_policy_program_id
              risk_policy a;
        swig_set =
            required-ok "SWIG_DELEGATION_PROGRAM_ID null in config" ids.swig_delegation_program_id
              swig b;
        multisig_set = required-ok "DEV_MULTISIG null in config" ids.dev_multisig multisig e;
        risk_policy_deployed = check_program-ok risk_policy c;
        swig_deployed = check_program-ok swig d;
        multisig_owned = check_multisig-ok ids.squads_v4_program_id multisig f;
        tagged = λ checked. check_policy-ok web3 ids (g ∙ ap ok (reported last ∙ checked));
        read_agent = check_agent-ok agents "read" read_owner h;
        compute_agent = check_agent-ok agents "compute" compute_owner i;
        execute_agent = check_agent-ok agents "execute" execute_owner j;
      }
    where
      reported :
          {t a b c : Bool} {r : Report}
          → ok (record { tag_checked = t; read_owner = a; compute_owner = b; execute_owner = c })
            ≡ ok r
          → t ≡ r.tag_checked
      reported same = ap (λ (v : Report). v.tag_checked) (ok-injective same)
