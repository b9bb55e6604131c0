-- ===== src/Session.antt =====
-- A client at work on the cluster: the host of `RealClient` whose transactions run the programs. The
-- connection may be down, or lose a confirmation after the transaction has landed.
pub mod Policy
pub mod Rebalance
pub mod Window
use risk_claw_sol.Prelude.{ℕ, ◌≡◌, arith, Bool, ◌||◌, String}
use risk_claw_sol.Types.{PublicKey}
use risk_claw_sol.Errors.{Outcome, ok, throws, error}
use risk_claw_sol.Client.{Host, Instruction, Reply, confirmed, rejected, is_some}
use risk_claw_sol.Devnet.{
  Deployment, Devnet, TxResult, ProgramError, landed, failed, process, after,
}

pub data Link : Type 0 where
  up : Link
  -- with the text of the error that the caller sees
  down unconfirmed : String → Link

pub record Session : Type 0 where
  pub chain : Devnet
  pub date_ms : ℕ
  pub link : Link

module _ (deployment : Deployment) (wallet : PublicKey) where
  abbrev account_on_chain : Link → PublicKey → Devnet → Outcome Bool
  account_on_chain up a d = ok (is_some (d.policies a) || is_some (d.last_rebalanced a))
  account_on_chain (down text) a d = throws (error text)
  account_on_chain (unconfirmed text) a d =
      ok (is_some (d.policies a) || is_some (d.last_rebalanced a))

  abbrev reply_of : TxResult Devnet → Session → Reply × Session
  reply_of (landed d) s = (confirmed (deployment.signature s.chain.count), record s { chain = d })
  reply_of (failed e) s = (rejected (deployment.error_text e), s)

  abbrev send_over : Link → Instruction → Session → Reply × Session
  send_over up i s = reply_of (process deployment wallet i s.chain) s
  send_over (down text) i s = (rejected text, s)
  send_over (unconfirmed text) i s =
      (rejected text, record s { chain = after (process deployment wallet i s.chain) s.chain })

  abbrev pub session_host : Host Session
  session_host = record {
    date_now = λ s. s.date_ms;
    get_account_info = λ a s. (account_on_chain s.link a s.chain, s);
    send = λ i s. send_over s.link i s;
  }

  pub send_landed :
      (i : Instruction) (s : Session) (d : Devnet)
      → s.link ≡ up
      → process deployment wallet i s.chain ≡ landed d
      → session_host.send i s
        ≡ (confirmed (deployment.signature s.chain.count), record s { chain = d })
  send_landed i s d connected done = ground (arith, done)

  pub send_failed :
      (i : Instruction) (s : Session) (e : ProgramError)
      → s.link ≡ up
      → process deployment wallet i s.chain ≡ failed e
      → session_host.send i s ≡ (rejected (deployment.error_text e), s)
  send_failed i s e connected done = ground (arith, done)
