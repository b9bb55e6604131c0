-- ===== src/Audit/Order.antt =====
-- The trail that the generator returns: the latest event first, and no event lost or made up.
use mathlib.Core.List.{Permᴰ}
use mathlib.Core.List.Permᴰ
use risk_claw_sol.Prelude.{
  ℕ, ◌≤◌, ◌≡◌, refl, inl, inr, List, [], ◌∷◌, arith, All, leb, Bool-cases, length,
}
use risk_claw_sol.Audit.{
  AuditEvent, ts, insert_event, sort_events, demo_events, generate_demo_events,
}

-- Every event is at least as late as those after it.
abbrev pub IsLatestFirst : List AuditEvent → Type 0
IsLatestFirst [] = Unit
IsLatestFirst (e ∷ es) = All (λ f. ts f ≤ ts e) es × IsLatestFirst es

All-insert_event :
    (P : AuditEvent → Type 0) (e : AuditEvent) (es : List AuditEvent)
    → P e
    → All P es
    → All P (insert_event e es)
unfolding insert_event
All-insert_event P e [] p all = (p, tt)
All-insert_event P e (f ∷ fs) p all = elim (Bool-cases (leb (ts f) (ts e))) [
  | inl here ↦ rw here (p, all)
  | inr later ↦ rw later (all.0, All-insert_event P e fs p all.1)
]

All-≤ : (a b : ℕ) (es : List AuditEvent) → a ≤ b → All (λ f. ts f ≤ a) es → All (λ f. ts f ≤ b) es
All-≤ a b [] h all = tt
All-≤ a b (e ∷ es) h all = (omega (arith, h, all.0), All-≤ a b es h all.1)

insert_event-IsLatestFirst :
    (e : AuditEvent) (es : List AuditEvent) → IsLatestFirst es → IsLatestFirst (insert_event e es)
unfolding insert_event
insert_event-IsLatestFirst e [] sorted = (tt, tt)
insert_event-IsLatestFirst e (f ∷ fs) sorted = elim (Bool-cases (leb (ts f) (ts e))) [
  | inl here ↦
      let le : ts f ≤ ts e = ground (arith, here) in
      rw here ((le, All-≤ (ts f) (ts e) fs le sorted.0), sorted)
  | inr later ↦ rw later (
    All-insert_event (λ g. ts g ≤ ts f) e fs (ground (arith, later)) sorted.0,
    insert_event-IsLatestFirst e fs sorted.1,
  )
]

pub sort_events-IsLatestFirst : (es : List AuditEvent) → IsLatestFirst (sort_events es)
unfolding sort_events
sort_events-IsLatestFirst [] = tt
sort_events-IsLatestFirst (e ∷ es) =
    insert_event-IsLatestFirst e (sort_events es) (sort_events-IsLatestFirst es)

insert_event-Perm : (e : AuditEvent) (es : List AuditEvent) → Permᴰ (insert_event e es) (e ∷ es)
unfolding insert_event
insert_event-Perm e [] = Permᴰ.refl (e ∷ [])
insert_event-Perm e (f ∷ fs) = elim (Bool-cases (leb (ts f) (ts e))) [
  | inl here ↦ rw here (Permᴰ.refl (e ∷ f ∷ fs))
  | inr later ↦
      rw later (Permᴰ.trans (Permᴰ.cons refl (insert_event-Perm e fs)) (Permᴰ.swap refl refl))
]

pub sort_events-Perm : (es : List AuditEvent) → Permᴰ (sort_events es) es
unfolding sort_events
sort_events-Perm [] = Permᴰ.nil
sort_events-Perm (e ∷ es) =
    Permᴰ.trans (insert_event-Perm e (sort_events es)) (Permᴰ.cons refl (sort_events-Perm es))

-- The trail holds the generated events, 17 in number, each once, and the latest first.
pub generate_demo_events-IsLatestFirst :
    (random : List ℕ → List ℕ) (base_score : ℕ → ℕ) (now : ℕ)
    → IsLatestFirst (generate_demo_events random base_score now)
      × Permᴰ (generate_demo_events random base_score now) (demo_events random base_score now)
      × (length (demo_events random base_score now) ≡ 17)
unfolding generate_demo_events demo_events
generate_demo_events-IsLatestFirst random base_score now = (
  sort_events-IsLatestFirst (demo_events random base_score now),
  sort_events-Perm (demo_events random base_score now),
  refl,
)
