-- ===== src/Client.antt =====
-- packages/onchain/src/client.ts: `RealClient`, method by method, over a host that it calls. An
-- `await` is where the environment may move on; the two caches are the client's own. The numbers and
-- keys that a message quotes are left out of its text.
mod Remote
mod State
mod Failures
pub mod Checks
pub mod Rebalance
pub mod Idempotency
pub mod Policy
pub mod Registry
pub use Remote.{
  Host, Instruction, init_policy, update_policy, execute_rebalance, Reply, confirmed, rejected,
}
pub use State.*
unfoldable pub use Failures.*
use Prim.Native.String
use risk_claw_sol.Prelude.{
  ℕ, ◌+◌, Bool, true, false, not, ◌&&◌, List, [], Option, none, some, String, codes, contains_ci,
  length, ltb, leb, ◌==◌, if◌then◌else◌, lookup, insert,
}
use risk_claw_sol.Types.{
  PublicKey, TxSig, MintAddress, Action, reduce, exit, hedge, DelegationPolicy, RebalancePlan,
  AgentConfig, ThresholdCheckResult, PositionMetrics,
}
use risk_claw_sol.Errors.{
  Thrown, Outcome, not_implemented_error, riskclaw_error, onchain_rejection, slippage_rejected,
}
use risk_claw_sol.Encrypt.{Uint8Array, new_uint8_array}
use risk_claw_sol.Ids.{
  Web3, Ids, AgentRegistryEntry, zone_name, derive_risk_policy_pda, derive_last_rebalanced_pda,
}
use risk_claw_sol.Programs.SwigDelegation.{RebalanceAction}

abbrev pub or_default : Option ℕ → ℕ → ℕ
or_default none d = d
or_default (some n) _ = n

abbrev pub is_some : {A : Type 0} → Option A → Bool
is_some none = false
is_some (some _) = true

-- The constructor.
unfoldable pub create_real_client : CreateRealClientOpts → RealClient
create_real_client opts = record {
  read_throttle_ms = or_default opts.read_throttle_ms 5000;
  write_throttle_ms = or_default opts.write_throttle_ms 30000;
  risk_policy = opts.risk_policy_idl;
  swig_delegation = opts.swig_delegation_idl;
  read_cache = [];
  write_cache = [];
}

-- The stub comparison, on the metrics alone.
unfoldable pub evaluate : PositionMetrics → ThresholdCheckResult
evaluate metrics = record { breached = leb 2500 metrics.drawdown_bps; score = metrics.notional_usd }

-- `cached && now - cached.lastCheckedAt < window`, with the difference moved to the right: over the
-- integers the two say the same, also for a clock that went back.
unfoldable pub fresh_read : ℕ → ℕ → Option ReadEntry → Option ThresholdCheckResult
fresh_read window now none = none
fresh_read window now (some e) =
    if ltb now (e.last_checked_at + window) then some e.last_result else none

unfoldable pub fresh_write : ℕ → ℕ → Option WriteEntry → Option TxSig
fresh_write window now none = none
fresh_write window now (some e) =
    if ltb now (e.last_executed_at + window) then some e.last_tx_sig else none

unfoldable pub check_at :
    String → PositionMetrics → ℕ → RealClient → ThresholdCheckResult × RealClient
unfolding fresh_read evaluate
check_at position_id metrics now c =
    elim (fresh_read c.read_throttle_ms now (lookup position_id c.read_cache)) [
      | some result ↦ (result, c)
      | none ↦
          let result = evaluate metrics in
          (
            result,
            record c {
              read_cache =
                  insert position_id (record { last_checked_at = now; last_result = result })
                    c.read_cache;
            },
          )
    ]

abbrev pub expected_out : ℕ
expected_out = 1000

abbrev pub min_out : ℕ
min_out = 995

abbrev pub max_slippage_bps : ℕ
max_slippage_bps = 100

-- The transaction that a plan is submitted as.
abbrev pub rebalance_instruction : RebalancePlan → PublicKey → Instruction
rebalance_instruction plan policy =
    execute_rebalance policy RebalanceAction.exit plan.size_bps max_slippage_bps expected_out
      min_out

abbrev pub policy_instruction : Bool → Uint8Array → PublicKey → Instruction
policy_instruction true ciphertext multisig = update_policy ciphertext (new_uint8_array 32) multisig
policy_instruction false ciphertext multisig = init_policy ciphertext (new_uint8_array 32) multisig

abbrev policy_failed : Bool → String
policy_failed true = "setEncryptedPolicy update failed"
policy_failed false = "setEncryptedPolicy init failed"

-- `_getReadCacheSize`, `_getWriteCacheSize` and `_clearCaches`.
unfoldable pub get_read_cache_size : RealClient → ℕ
get_read_cache_size c = length c.read_cache

unfoldable pub get_write_cache_size : RealClient → ℕ
get_write_cache_size c = length c.write_cache

unfoldable pub clear_caches : RealClient → RealClient
clear_caches c = record c { read_cache = []; write_cache = [] }

-- The end of the `try` of `setEncryptedPolicy`.
abbrev pub policy_outcome : Bool → Reply → Outcome TxSig
policy_outcome exists (confirmed sig) = Outcome.ok sig
policy_outcome exists (rejected msg) =
    Outcome.throws (onchain_rejection_error (policy_failed exists) (some msg))

module _ {E : Type 0} where
  unfoldable pub delegate_to_guardian : PublicKey → PublicKey → DelegationPolicy → Call E TxSig
  delegate_to_guardian _ _ _ =
      throw (not_implemented_error "delegateToGuardian — Pkg-19 (Q2 spike: Swig SDK API)" none)

  unfoldable pub register_agent : Ids → AgentConfig → Call E MintAddress
  register_agent ids agent w = (
    elim (lookup (zone_name agent.zone) ids.agent_registry) [
      | none ↦ Outcome.throws (
          onchain_rejection_error
            (quoted "no registered agent for zone=\"" (zone_name agent.zone)
              "\" — run scripts/register-agents.ts")
            none)
      | some entry ↦
          if entry.pubkey == agent.public_key
          then Outcome.ok entry.mint
          else Outcome.throws (
              onchain_rejection_error
                (quoted "zone=\"" (zone_name agent.zone)
                  "\" pubkey mismatch — caller config is stale")
                none)
    ],
    w,
  )

module _ {E : Type 0} (host : Host E) where
  abbrev pub date_now : Call E ℕ
  date_now w = (Outcome.ok (host.date_now w.env), w)

  abbrev pub rpc : Instruction → Call E Reply
  rpc instruction w =
      let (reply, env') = host.send instruction w.env in (Outcome.ok reply, record w { env = env' })

  abbrev pub account_exists : PublicKey → Call E Bool
  account_exists pda w =
      let (found, env') = host.get_account_info pda w.env in (found, record w { env = env' })

  unfoldable pub check_threshold_breach : String → PositionMetrics → Call E ThresholdCheckResult
  unfolding check_at
  check_threshold_breach position_id metrics w =
      let (result, c) = check_at position_id metrics (host.date_now w.env) w.client in
      (Outcome.ok result, record w { client = c })

  -- `this.writeCache.set(…)` after a confirmed transaction.
  abbrev pub remember_write : String → TxSig → ℕ → Call E TxSig
  remember_write position_id sig now w = (
    Outcome.ok sig,
    record w {
      client = record (w.client) {
        write_cache =
            insert position_id (record { last_tx_sig = sig; last_executed_at = now })
              (w.client).write_cache;
      };
    },
  )

  -- What follows `.rpc()` in `executePrivateRebalance`. `cached_write` was read before it.
  unfoldable pub finish_rebalance : RebalancePlan → Option WriteEntry → Reply → Call E TxSig
  unfolding rebalance_failed
  finish_rebalance plan cached_write (confirmed sig) = do
    now ← date_now
    remember_write plan.position_id sig now
  finish_rebalance plan cached_write (rejected msg) = lift (rebalance_failed plan cached_write msg)

  unfoldable pub submit_rebalance : RebalancePlan → PublicKey → Option WriteEntry → Call E TxSig
  unfolding finish_rebalance
  submit_rebalance plan policy cached_write = do
    reply ← rpc (rebalance_instruction plan policy)
    finish_rebalance plan cached_write reply

  module _ (web3 : Web3) (ids : Ids) where
    unfoldable pub set_encrypted_policy : PublicKey → Uint8Array → Call E TxSig
    set_encrypted_policy multisig ciphertext = do
      c ← this
      throw_if (not (c.risk_policy && is_some ids.risk_policy_program_id)) no_policy_program_error
      throw_if (not (length ciphertext == 64)) ciphertext_size_error
      pda ← lift (derive_risk_policy_pda web3 ids multisig)
      exists ← account_exists pda.0
      reply ← rpc (policy_instruction exists ciphertext multisig)
      lift (policy_outcome exists reply)

    -- The plan's checks, up to the transaction.
    unfoldable pub execute_private_rebalance : RebalancePlan → Call E TxSig
    unfolding fresh_write submit_rebalance
    execute_private_rebalance plan = do
      throw_if (not (is_exit_plan plan.action)) (only_exit_error plan.action)
      c ← this
      throw_if (not (c.swig_delegation && is_some ids.swig_delegation_program_id)) no_swig_error
      policy ← lift (web3.new_public_key plan.position_id)
      lift (derive_last_rebalanced_pda web3 ids policy)
      now ← date_now
      let cached_write = lookup plan.position_id c.write_cache
      elim (fresh_write c.write_throttle_ms now cached_write) [
        | some sig ↦ pure sig
        | none ↦ submit_rebalance plan policy cached_write
      ]
