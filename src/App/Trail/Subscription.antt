-- ===== src/App/Trail/Subscription.antt =====
-- The audit page's subscription: its effect keeps exactly one listener while a wallet is connected.

use risk_claw_sol.Prelude.{
  ℕ, ◌≡◌, refl, inl, inr, Bool, true, false, List, [], ◌∷◌, Option, none, some, ap, ◌∙◌, arith,
  subst, sym, Bool-cases, ==_refl,
}
use risk_claw_sol.Types.{PublicKey}
use risk_claw_sol.Client.{is_some}
use risk_claw_sol.Audit.{AuditEvent}
use risk_claw_sol.App.Binding.{same_wallet}
use risk_claw_sol.App.Trail.{AuditPage, cleanup, subscribe, same_effect, use_effect, unmount}

-- One listener, known to the cleanup, while a wallet is connected; else none.
pub record Listens (page : AuditPage) (id : ℕ) : Type 0 where
  pub known : page.listener ≡ some id
  pub only : page.registered ≡ id ∷ []
  pub shown : page.listening ≡ true

pub record IsSilent (page : AuditPage) : Type 0 where
  pub known : page.listener ≡ none
  pub only : page.registered ≡ []
  pub shown : page.listening ≡ false

abbrev pub IsSubscribed : Bool → AuditPage → Type 0
IsSubscribed true page = (id : ℕ) × Listens page id
IsSubscribed false page = IsSilent page

cleanup-IsSilent :
    (b : Bool) (page : AuditPage) → IsSubscribed b page → IsSilent (cleanup page.listener page)
cleanup-IsSilent true page (id, l) =
    rw (l.known, l.only, ==_refl id) (record { known = refl; only = refl; shown = refl })
cleanup-IsSilent false page s = subst (λ o. IsSilent (cleanup o page)) (sym s.known) s

subscribe-IsSubscribed :
    (wallet : Option PublicKey) (page : AuditPage)
    → IsSilent page
    → IsSubscribed (is_some wallet) (subscribe wallet page)
subscribe-IsSubscribed none page s = record { known = s.known; only = s.only; shown = refl }
subscribe-IsSubscribed (some wallet) page s =
    (page.next_id, record { known = refl; only = rw s.only refl; shown = refl })

-- Whether the effect that ran last had a wallet.
abbrev wallet_in : Option (Option PublicKey × ℕ) → Bool
wallet_in none = false
wallet_in (some (wallet, connection)) = is_some wallet

IsSubscribed-effect :
    (b : Bool) (page : AuditPage) (effect : Option (Option PublicKey × ℕ))
    → IsSubscribed b page
    → IsSubscribed b (record page { effect = effect })
IsSubscribed-effect true page effect (id, l) =
    (id, record { known = l.known; only = l.only; shown = l.shown })
IsSubscribed-effect false page effect s = record { known = s.known; only = s.only; shown = s.shown }

pub IsSubscribed-events :
    (b : Bool) (page : AuditPage) (events : List AuditEvent)
    → IsSubscribed b page
    → IsSubscribed b (record page { events = events })
IsSubscribed-events true page events (id, l) =
    (id, record { known = l.known; only = l.only; shown = l.shown })
IsSubscribed-events false page events s = record { known = s.known; only = s.only; shown = s.shown }

cleanup-effect : (o : Option ℕ) (page : AuditPage) → (cleanup o page).effect ≡ page.effect
cleanup-effect none page = refl
cleanup-effect (some id) page = refl

cleanup-events : (o : Option ℕ) (page : AuditPage) → (cleanup o page).events ≡ page.events
cleanup-events none page = refl
cleanup-events (some id) page = refl

subscribe-effect :
    (wallet : Option PublicKey) (page : AuditPage) → (subscribe wallet page).effect ≡ page.effect
subscribe-effect none page = refl
subscribe-effect (some wallet) page = refl

subscribe-events :
    (wallet : Option PublicKey) (page : AuditPage) → (subscribe wallet page).events ≡ page.events
subscribe-events none page = refl
subscribe-events (some wallet) page = refl

same_wallet-is_some : (a b : Option PublicKey) → same_wallet a b ≡ true → is_some a ≡ is_some b
same_wallet-is_some none none h = refl
same_wallet-is_some none (some b) h = cc
same_wallet-is_some (some a) none h = cc
same_wallet-is_some (some a) (some b) h = refl

same_effect-wallet :
    (effect : Option (Option PublicKey × ℕ)) (wallet : Option PublicKey) (connection : ℕ)
    → same_effect effect wallet connection ≡ true
    → wallet_in effect ≡ is_some wallet
same_effect-wallet none wallet connection h = cc
same_effect-wallet (some (w, c)) wallet connection h = same_wallet-is_some w wallet (ground arith)

-- The subscription is that of the effect that ran last, which had the wallet of the last render.
pub record Follows (wallet_there : Bool) (page : AuditPage) : Type 0 where
  pub subscribed : IsSubscribed wallet_there page
  pub ran : wallet_in page.effect ≡ wallet_there

pub use_effect-Follows :
    (wallet : Option PublicKey) (connection : ℕ) (b : Bool) (page : AuditPage)
    → Follows b page
    → Follows (is_some wallet) (use_effect wallet connection page)
      × ((use_effect wallet connection page).events ≡ page.events)
unfolding use_effect
use_effect-Follows wallet connection b page f =
    elim (Bool-cases (same_effect page.effect wallet connection)) [
      | inl same ↦
          let here : b ≡ is_some wallet =
            sym f.ran ∙ same_effect-wallet page.effect wallet connection same in
          rw same (subst (λ c. Follows c page) here f, refl)
      | inr other ↦
          let next : AuditPage = record page { effect = some (wallet, connection) } in
          rw other (
            record {
              subscribed = subscribe-IsSubscribed wallet (cleanup page.listener next) (
                  cleanup-IsSilent b next
                    (IsSubscribed-effect b page (some (wallet, connection)) f.subscribed));
              ran = ap wallet_in (
                  subscribe-effect wallet (cleanup page.listener next)
                  ∙ cleanup-effect page.listener next);
            },
            subscribe-events wallet (cleanup page.listener next)
                ∙ cleanup-events page.listener next,
          )
    ]

pub unmount-Follows :
    (b : Bool) (page : AuditPage)
    → Follows b page
    → Follows false (unmount page) × ((unmount page).events ≡ page.events)
unfolding unmount
unmount-Follows b page f =
    let next : AuditPage = record page { effect = none } in
    (
      record {
        subscribed = cleanup-IsSilent b next (IsSubscribed-effect b page none f.subscribed);
        ran = ap wallet_in (cleanup-effect page.listener next);
      },
      cleanup-events page.listener next,
    )
