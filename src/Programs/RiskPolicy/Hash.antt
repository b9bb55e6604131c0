-- ===== src/Programs/RiskPolicy/Hash.antt =====
-- What `recompute_hash` computes: byte j of the hash is the exclusive or of bytes j and j + 32 of the
-- ciphertext and of byte j of the handle.
use Prim.Native.Nat.{bit_xor}
use mathlib.Core.List.{append_assoc}
use risk_claw_sol.Prelude.{
  ℕ, zero, suc, ◌+◌, ◌*◌, ◌%◌, ◌<◌, ◌≡◌, refl, ap, ◌∙◌, sym, List, [], ◌∷◌, ◌++◌, arith, length,
  replicate, length-append, All, Bool, true, false, if◌then◌else◌, ◌==◌, ==_iff, ap₂,
}
use risk_claw_sol.Programs.RiskPolicy.{xor_at, fold_bytes, hash_of}

-- Byte by byte, as far as the second list goes.
abbrev pub xor_bytes : List ℕ → List ℕ → List ℕ
xor_bytes [] bs = []
xor_bytes (t ∷ ts) [] = t ∷ ts
xor_bytes (t ∷ ts) (b ∷ bs) = bit_xor t b ∷ xor_bytes ts bs

xor_at-append :
    (pre ts : List ℕ) (t b : ℕ)
    → xor_at (pre ++ (t ∷ ts)) (length pre) b ≡ pre ++ (bit_xor t b ∷ ts)
unfolding xor_at
xor_at-append [] ts t b = refl
xor_at-append (x ∷ pre) ts t b = ap (λ l. x ∷ l) (xor_at-append pre ts t b)

fold_bytes-append :
    (i : ℕ) (xs ys tag : List ℕ)
    → fold_bytes i (xs ++ ys) tag ≡ fold_bytes (i + length xs) ys (fold_bytes i xs tag)
unfolding fold_bytes
fold_bytes-append i [] ys tag = ap (λ k. fold_bytes k ys tag) (omega arith)
fold_bytes-append i (x ∷ xs) ys tag =
    fold_bytes-append (suc i) xs ys (xor_at tag (i % 32) x)
    ∙ ap (λ k. fold_bytes k ys (fold_bytes (suc i) xs (xor_at tag (i % 32) x))) (omega arith)

-- A stretch of bytes that begins at position `length pre` of a block of 32.
fold_block :
    (base : ℕ) (pre xs ts : List ℕ)
    → length pre + length ts ≡ 32
    → length xs ≡ length ts
    → fold_bytes (base * 32 + length pre) xs (pre ++ ts) ≡ pre ++ xor_bytes ts xs
unfolding fold_bytes
fold_block base pre [] [] a b = refl
fold_block base pre [] (t ∷ ts) a b = absurd (omega arith)
fold_block base pre (x ∷ xs) [] a b = absurd (omega arith)
fold_block base pre (x ∷ xs) (t ∷ ts) a b =
    let i : ℕ = base * 32 + length pre in
    let v : ℕ = bit_xor t x in
    let pre' : List ℕ = pre ++ (v ∷ []) in
    let grown : length pre' ≡ length pre + 1 = length-append pre (v ∷ []) in
    let here : i % 32 ≡ length pre = omega arith in
    ap (λ k. fold_bytes (suc i) xs (xor_at (pre ++ (t ∷ ts)) k x)) here
    ∙ ap (fold_bytes (suc i) xs) (xor_at-append pre ts t x)
    ∙ ap (λ k. fold_bytes k xs (pre ++ (v ∷ ts))) (omega arith)
    ∙ ap (fold_bytes (base * 32 + length pre') xs) (sym (append_assoc pre (v ∷ []) ts))
    ∙ fold_block base pre' xs ts (omega arith) (omega arith)
    ∙ append_assoc pre (v ∷ []) (xor_bytes ts xs)

-- A whole block of 32 bytes.
fold_block_whole :
    (base : ℕ) (xs ts : List ℕ)
    → length ts ≡ 32
    → length xs ≡ 32
    → fold_bytes (base * 32) xs ts ≡ xor_bytes ts xs
fold_block_whole base xs ts a b =
    ap (λ k. fold_bytes k xs ts) (omega arith)
    ∙ fold_block base [] xs ts (omega arith) (omega arith)

length-xor_bytes : (ts bs : List ℕ) → length (xor_bytes ts bs) ≡ length ts
length-xor_bytes [] bs = refl
length-xor_bytes (t ∷ ts) [] = refl
length-xor_bytes (t ∷ ts) (b ∷ bs) = ap suc (length-xor_bytes ts bs)

-- The hash of a ciphertext in two halves of 32 bytes and a handle of 32 bytes is their exclusive or,
-- byte by byte.
pub hash_of_blocks :
    (a b h : List ℕ)
    → length a ≡ 32
    → length b ≡ 32
    → length h ≡ 32
    → hash_of (a ++ b) h ≡ xor_bytes (xor_bytes (xor_bytes (replicate 32 0) a) b) h
unfolding hash_of
hash_of_blocks a b h la lb lh =
    let zeros : List ℕ = replicate 32 0 in
    let first : fold_bytes 0 a zeros ≡ xor_bytes zeros a = fold_block_whole 0 a zeros refl la in
    ap (λ l. fold_bytes 0 l zeros) (append_assoc a b h)
    ∙ fold_bytes-append 0 a (b ++ h) zeros
    ∙ ap (fold_bytes (0 + length a) (b ++ h)) first
    ∙ fold_bytes-append (0 + length a) b h (xor_bytes zeros a)
    ∙ ap (λ k. fold_bytes (k + length b) h (fold_bytes k b (xor_bytes zeros a))) (omega arith)
    ∙ ap (fold_bytes (1 * 32 + length b) h)
        (fold_block_whole 1 b (xor_bytes zeros a) (length-xor_bytes zeros a) lb)
    ∙ ap (λ k. fold_bytes k h (xor_bytes (xor_bytes zeros a) b)) (omega arith)
    ∙ fold_block_whole 2 h (xor_bytes (xor_bytes zeros a) b)
        (length-xor_bytes (xor_bytes zeros a) b ∙ length-xor_bytes zeros a) lh

abbrev swaps : ℕ → ℕ → Bool
swaps a b = bit_xor (bit_xor 0 a) b == bit_xor (bit_xor 0 b) a

-- The bytes in `limit` that change places with `a`, and the whole table of them.
row_swaps : ℕ → ℕ → Bool
row_swaps a zero = true
row_swaps a (suc limit) = if swaps a limit then row_swaps a limit else false

table_swaps : ℕ → Bool
table_swaps zero = true
table_swaps (suc limit) = if row_swaps limit 256 then table_swaps limit else false

row_swaps_lem : (a b limit : ℕ) → b < limit → row_swaps a limit ≡ true → (swaps a b) ≡ true
unfolding row_swaps
row_swaps_lem a b zero inside holds = absurd (omega arith)
row_swaps_lem a b (suc limit) inside holds = ground (row_swaps_lem a b limit, arith)

table_swaps_lem : (a limit : ℕ) → a < limit → table_swaps limit ≡ true → row_swaps a 256 ≡ true
unfolding table_swaps
table_swaps_lem a zero inside holds = absurd (omega arith)
table_swaps_lem a (suc limit) inside holds = ground (table_swaps_lem a limit, arith)

bytes_swap : table_swaps 256 ≡ true
unfolding table_swaps row_swaps
bytes_swap = refl

xor_swap : (a b : ℕ) → a < 256 → b < 256 → bit_xor (bit_xor 0 a) b ≡ bit_xor (bit_xor 0 b) a
xor_swap a b p q = (==_iff _ _).0 (row_swaps_lem a b 256 q (table_swaps_lem a 256 p bytes_swap))

xor_bytes_swap :
    (n : ℕ) (a b : List ℕ)
    → length a ≡ n
    → length b ≡ n
    → All (λ x. x < 256) a
    → All (λ x. x < 256) b
    → xor_bytes (xor_bytes (replicate n 0) a) b ≡ xor_bytes (xor_bytes (replicate n 0) b) a
xor_bytes_swap zero [] [] p q ha hb = refl
xor_bytes_swap zero (x ∷ a) b p q ha hb = absurd (omega arith)
xor_bytes_swap zero [] (y ∷ b) p q ha hb = absurd (omega arith)
xor_bytes_swap (suc n) [] b p q ha hb = absurd (omega arith)
xor_bytes_swap (suc n) (x ∷ a) [] p q ha hb = absurd (omega arith)
xor_bytes_swap (suc n) (x ∷ a) (y ∷ b) p q ha hb =
    ap₂ (λ v l. v ∷ l) (xor_swap x y ha.0 hb.0)
      (xor_bytes_swap n a b (omega arith) (omega arith) ha.1 hb.1)

-- The hash does not tell a ciphertext of 64 bytes from the one with its halves exchanged.
pub hash_of_swapped :
    (a b h : List ℕ)
    → length a ≡ 32
    → length b ≡ 32
    → length h ≡ 32
    → All (λ x. x < 256) a
    → All (λ x. x < 256) b
    → hash_of (a ++ b) h ≡ hash_of (b ++ a) h
hash_of_swapped a b h la lb lh ha hb =
    hash_of_blocks a b h la lb lh
    ∙ ap (λ l. xor_bytes l h) (xor_bytes_swap 32 a b la lb ha hb)
    ∙ sym (hash_of_blocks b a h lb la lh)
