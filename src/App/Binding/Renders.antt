-- ===== src/App/Binding/Renders.antt =====
-- The client over the life of a page: renders with whatever wallet is connected, and methods of the
-- client that change it in place.
use risk_claw_sol.Prelude.{
  ℕ, ◌≡◌, refl, inl, inr, true, ◌&&◌, List, [], ◌∷◌, Option, none, some, ◌==◌, arith, ap, subst,
  Bool-cases, ==_iff, ==_refl,
}
use risk_claw_sol.Types.{PublicKey}
use risk_claw_sol.Client.{RealClient}
use risk_claw_sol.App.Binding.{BoundClient, Memo, new_client, same_wallet, use_onchain_client}

pub data Life : Type 0 where
  renders : Option PublicKey → ℕ → Life
  calls : (RealClient → RealClient) → Life

abbrev changed : (RealClient → RealClient) → Option BoundClient → Option BoundClient
changed f none = none
changed f (some b) = some (record b { client = f b.client })

abbrev touched : (RealClient → RealClient) → Option Memo → Option Memo
touched f none = none
touched f (some memo) = some (record memo { value = changed f memo.value })

-- The kept value after a life, the latest event first.
unfoldable pub after : List Life → Option Memo
unfolding use_onchain_client
after [] = none
after (renders wallet connection ∷ before) =
    some (use_onchain_client wallet connection (after before))
after (calls f ∷ before) = touched f (after before)

-- No client without a wallet, and with one a client that signs for it.
abbrev pub Serves : Option PublicKey → Option BoundClient → Type 0
Serves none value = value ≡ none
Serves (some key) value = (b : BoundClient) × (value ≡ some b) × (b.signer ≡ key)

abbrev pub IsBound : Option Memo → Type 0
IsBound none = Unit
IsBound (some memo) = Serves memo.wallet memo.value

new_client-Serves : (wallet : Option PublicKey) → Serves wallet (new_client wallet)
new_client-Serves none = refl
new_client-Serves (some key) = (_, refl, refl)

changed-Serves :
    (f : RealClient → RealClient) (wallet : Option PublicKey) (value : Option BoundClient)
    → Serves wallet value
    → Serves wallet (changed f value)
changed-Serves f none value h = rw h refl
changed-Serves f (some key) value (b, h, signs) =
    (record b { client = f b.client }, rw h refl, signs)

touched-IsBound :
    (f : RealClient → RealClient) (o : Option Memo) → IsBound o → IsBound (touched f o)
touched-IsBound f none h = tt
touched-IsBound f (some memo) h = changed-Serves f memo.wallet memo.value h

render-IsBound :
    (wallet : Option PublicKey) (connection : ℕ) (o : Option Memo)
    → IsBound o
    → IsBound (some (use_onchain_client wallet connection o))
unfolding use_onchain_client
render-IsBound wallet connection none h = new_client-Serves wallet
render-IsBound wallet connection (some memo) h =
    elim (Bool-cases (same_wallet memo.wallet wallet && (memo.connection == connection))) [
      | inl same ↦ rw same h
      | inr other ↦ rw other (new_client-Serves wallet)
    ]

after-IsBound : (life : List Life) → IsBound (after life)
unfolding after
after-IsBound [] = tt
after-IsBound (renders wallet connection ∷ before) =
    render-IsBound wallet connection (after before) (after-IsBound before)
after-IsBound (calls f ∷ before) = touched-IsBound f (after before) (after-IsBound before)

same_wallet_refl : (wallet : Option PublicKey) → same_wallet wallet wallet ≡ true
same_wallet_refl none = refl
same_wallet_refl (some key) = ==_refl key

same_wallet_sound : (a b : Option PublicKey) → same_wallet a b ≡ true → a ≡ b
same_wallet_sound none none h = refl
same_wallet_sound none (some b) h = cc
same_wallet_sound (some a) none h = cc
same_wallet_sound (some a) (some b) h = ap some ((==_iff a b).0 h)

render-wallet :
    (wallet : Option PublicKey) (connection : ℕ) (o : Option Memo)
    → (use_onchain_client wallet connection o).wallet ≡ wallet
unfolding use_onchain_client
render-wallet wallet connection none = refl
render-wallet wallet connection (some memo) =
    elim (Bool-cases (same_wallet memo.wallet wallet && (memo.connection == connection))) [
      | inl same ↦ rw same (same_wallet_sound memo.wallet wallet (ground arith))
      | inr other ↦ rw other refl
    ]

render-connection :
    (wallet : Option PublicKey) (connection : ℕ) (o : Option Memo)
    → (use_onchain_client wallet connection o).connection ≡ connection
unfolding use_onchain_client
render-connection wallet connection none = refl
render-connection wallet connection (some memo) =
    elim (Bool-cases (same_wallet memo.wallet wallet && (memo.connection == connection))) [
      | inl same ↦ rw same (ground arith)
      | inr other ↦ rw other refl
    ]

kept :
    (wallet : Option PublicKey) (connection : ℕ) (memo : Memo)
    → memo.wallet ≡ wallet
    → memo.connection ≡ connection
    → use_onchain_client wallet connection (some memo) ≡ memo
unfolding use_onchain_client
kept wallet connection memo same_key same_number =
    rw (same_key, same_number, same_wallet_refl wallet, ==_refl connection) refl

-- After any life, a render returns no client exactly without a wallet, else one that signs for that
-- wallet; a further render with the same wallet and connection, after any call, returns that client
-- with what the call has changed.
pub use_onchain_client-Serves :
    (life : List Life) (wallet : Option PublicKey) (connection : ℕ) (f : RealClient → RealClient)
    → Serves wallet (use_onchain_client wallet connection (after life)).value
      × (after (renders wallet connection ∷ calls f ∷ renders wallet connection ∷ life)
          ≡ after (calls f ∷ renders wallet connection ∷ life))
unfolding after
use_onchain_client-Serves life wallet connection f = (
  subst (λ w. Serves w (use_onchain_client wallet connection (after life)).value)
      (render-wallet wallet connection (after life))
      (render-IsBound wallet connection (after life) (after-IsBound life)),
  ap some (
      kept wallet connection
        (record (use_onchain_client wallet connection (after life)) {
          value = changed f (use_onchain_client wallet connection (after life)).value;
        })
        (render-wallet wallet connection (after life))
        (render-connection wallet connection (after life))),
)
