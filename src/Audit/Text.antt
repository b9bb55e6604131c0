-- ===== src/Audit/Text.antt =====
-- The lengths of signatures that are made up, and of those that are shortened.
use Prim.Native.Nat.{min}
use risk_claw_sol.Prelude.{
  ℕ, ◌+◌, ◌-◌, ◌≤◌, ◌<◌, ◌≡◌, arith, List, length, ◌++◌, ◌∷◌, take, drop, replicate, length-append,
  length-take, length-drop, length-replicate,
}
use risk_claw_sol.Audit.{fake_sig, shorten_sig}

-- A made-up signature has from 64 to 88 characters.
pub length-fake_sig :
    (seed random : List ℕ)
    → (64 ≤ length (fake_sig seed random)) × (length (fake_sig seed random) ≤ 88)
unfolding fake_sig
length-fake_sig seed random =
    let a : List ℕ = seed ++ (95 ∷ random) in
    let pad = length-replicate {A = ℕ} (64 - length a) 120 in
    let all = length-append a (replicate (64 - length a) 120) in
    let cut = length-take 88 (a ++ replicate (64 - length a) 120) in
    (omega (arith, pad, all, cut), omega (arith, pad, all, cut))

-- With at least one character kept of the end, a text is left as it is, or becomes shorter: its first
-- `head` characters, an ellipsis, and its last `tail`.
pub length-shorten_sig :
    (s : List ℕ) (head tail : ℕ)
    → 0 < tail
    → (length (shorten_sig s head tail) ≡ min (length s) (head + tail + 1))
unfolding shorten_sig
length-shorten_sig s head tail some_end = ground (
  arith,
  length-append (take head s) (8230 ∷ drop (length s - tail) s),
  length-take head s,
  length-drop (length s - tail) s,
)

-- With no character of the end to keep, the source's `slice(-0)` keeps them all: a text that is long
-- enough to be shortened becomes longer.
pub length-shorten_sig_no_tail :
    (s : List ℕ) (head : ℕ)
    → head + 1 < length s
    → length (shorten_sig s head 0) ≡ length s + head + 1
unfolding shorten_sig
length-shorten_sig_no_tail s head long =
    ground (arith, length-append (take head s) (8230 ∷ s), length-take head s)
