-- ===== src/App/Trail/Heard.antt =====
-- What the audit page shows after any life of it: a row for each event of the program while a wallet
-- was connected, once each, the latest first.
use mathlib.Core.List.{Permᴰ}
use risk_claw_sol.Prelude.{
  ℕ, ◌≡◌, refl, Bool, true, false, List, [], ◌∷◌, map, Option, ap, ◌∙◌, subst, sym, if◌then◌else◌,
  String,
}
use risk_claw_sol.Types.{PublicKey}
use risk_claw_sol.Programs.SwigDelegation.{RebalanceExecutedEvent}
use risk_claw_sol.Client.{is_some}
use risk_claw_sol.Audit.{sort_events}
use risk_claw_sol.Audit.Order.{IsLatestFirst, sort_events-IsLatestFirst, sort_events-Perm}
use risk_claw_sol.App.Trail.{AuditPage, initial, use_effect, unmount, row_of, deliver, displayed}
use risk_claw_sol.App.Trail.Subscription.{
  IsSubscribed, Follows, use_effect-Follows, unmount-Follows, IsSubscribed-events,
}

pub data Life : Type 0 where
  renders : Option PublicKey → ℕ → Life
  unmounts : Life
  -- the program emits an event on the chain
  emits : RebalanceExecutedEvent → Life

-- Whether a wallet is connected, after events of which the latest is the first.
abbrev pub connected : List Life → Bool
connected [] = false
connected (renders wallet connection ∷ before) = is_some wallet
connected (unmounts ∷ before) = false
connected (emits e ∷ before) = connected before

-- The events of the program while a wallet was connected.
abbrev pub heard : List Life → List RebalanceExecutedEvent
heard [] = []
heard (renders wallet connection ∷ before) = heard before
heard (unmounts ∷ before) = heard before
heard (emits e ∷ before) = if connected before then e ∷ heard before else heard before

module _ (to_base58 : PublicKey → String) where
  -- The page after its events, of which the latest is the first.
  unfoldable pub after : List Life → AuditPage
  unfolding use_effect unmount deliver
  after [] = initial
  after (renders wallet connection ∷ before) = use_effect wallet connection (after before)
  after (unmounts ∷ before) = unmount (after before)
  after (emits e ∷ before) = deliver to_base58 (after before).registered e (after before)

  abbrev with_row : Bool → RebalanceExecutedEvent → AuditPage → AuditPage
  with_row true e page = record page { events = row_of to_base58 e ∷ page.events }
  with_row false e page = page

  deliver-with_row :
      (b : Bool) (e : RebalanceExecutedEvent) (page : AuditPage)
      → IsSubscribed b page
      → deliver to_base58 page.registered e page ≡ with_row b e page
  unfolding deliver
  deliver-with_row true e page (id, l) = ap (λ ids. deliver to_base58 ids e page) l.only
  deliver-with_row false e page s = ap (λ ids. deliver to_base58 ids e page) s.only

  with_row-Follows :
      (b : Bool) (e : RebalanceExecutedEvent) (page : AuditPage)
      → Follows b page
      → Follows b (with_row b e page)
  with_row-Follows true e page f = record {
    subscribed = IsSubscribed-events true page (row_of to_base58 e ∷ page.events) f.subscribed;
    ran = f.ran;
  }
  with_row-Follows false e page f = f

  after-Follows : (life : List Life) → Follows (connected life) (after life)
  unfolding after
  after-Follows [] = record {
    subscribed = record { known = refl; only = refl; shown = refl };
    ran = refl;
  }
  after-Follows (renders wallet connection ∷ before) =
      (use_effect-Follows wallet connection (connected before) (after before)
        (after-Follows before)).0
  after-Follows (unmounts ∷ before) =
      (unmount-Follows (connected before) (after before) (after-Follows before)).0
  after-Follows (emits e ∷ before) =
      let f = after-Follows before in
      subst (Follows (connected before))
        (sym (deliver-with_row (connected before) e (after before) f.subscribed))
        (with_row-Follows (connected before) e (after before) f)

  with_row-events :
      (b : Bool) (e : RebalanceExecutedEvent) (log : List RebalanceExecutedEvent) (page : AuditPage)
      → page.events ≡ map (row_of to_base58) log
      → (with_row b e page).events ≡ map (row_of to_base58) (if b then e ∷ log else log)
  with_row-events true e log page h = ap (λ rows. row_of to_base58 e ∷ rows) h
  with_row-events false e log page h = h

  pub after-events : (life : List Life) → (after life).events ≡ map (row_of to_base58) (heard life)
  unfolding after
  after-events [] = refl
  after-events (renders wallet connection ∷ before) =
      (use_effect-Follows wallet connection (connected before) (after before)
        (after-Follows before)).1
      ∙ after-events before
  after-events (unmounts ∷ before) =
      (unmount-Follows (connected before) (after before) (after-Follows before)).1
      ∙ after-events before
  after-events (emits e ∷ before) =
      ap AuditPage.events
        (deliver-with_row (connected before) e (after before) (after-Follows before).subscribed)
      ∙ with_row-events (connected before) e (heard before) (after before) (after-events before)

  -- After any renders, disconnections and events, one listener is registered exactly while a wallet is
  -- connected, which the page says; and the table holds one row for each event that the program
  -- emitted while a wallet was connected, and no other, with the latest first.
  pub displayed-heard :
      (life : List Life)
      → IsSubscribed (connected life) (after life)
        × Permᴰ (displayed (after life)) (map (row_of to_base58) (heard life))
        × IsLatestFirst (displayed (after life))
  unfolding displayed
  displayed-heard life = (
    (after-Follows life).subscribed,
    subst (Permᴰ (sort_events (after life).events)) (after-events life)
        (sort_events-Perm (after life).events),
    sort_events-IsLatestFirst (after life).events,
  )
