-- ===== src/Encrypt/Packing.antt =====
-- What the packing guarantees: its size, its layout, and that it can be read back.
use native.Mathlib.Nat.{pow-suc}
use risk_claw_sol.Prelude.{
  ℕ, zero, suc, ◌/◌, ◌^◌, ◌<◌, ◌≡◌, refl, ap, ◌++◌, arith, Option, length, take, drop, replicate,
  All,
}
use risk_claw_sol.Prelude.Int.{ℤ, pos, negsuc}
use risk_claw_sol.Types.{PublicKey}
use risk_claw_sol.Errors.{ok}
use risk_claw_sol.Encrypt.Bytes.{to_biguint64, le_bytes, of_le_bytes}
use risk_claw_sol.Encrypt.{encrypt_threshold, test_decrypt_placeholder, stub_tag}

of_le_bytes-le_bytes : (k n : ℕ) → n < 256 ^ k → of_le_bytes (le_bytes k n) ≡ n
unfolding le_bytes of_le_bytes
of_le_bytes-le_bytes zero n h = omega arith
of_le_bytes-le_bytes (suc k) n h =
    omega (arith, of_le_bytes-le_bytes k (n / 256) (omega (arith, pow-suc 256 k)))

pub to_biguint64-lt : (t : ℤ) → to_biguint64 t < 2 ^ 64
to_biguint64-lt (pos n) = omega arith
to_biguint64-lt (negsuc n) = omega arith

pub IsByte : ℕ → Type 0
IsByte b = b < 256

-- The packed array: the threshold's eight bytes, 40 zero bytes, the 16 bytes of the tag.
pub encrypt_threshold_layout :
    (t : ℤ) (k : Option PublicKey)
    → encrypt_threshold t k ≡ le_bytes 8 (to_biguint64 t) ++ (replicate 40 0 ++ stub_tag)
unfolding encrypt_threshold le_bytes
encrypt_threshold_layout t k = refl

-- The packed array has 64 bytes: after the threshold's eight come 40 zeros, then the tag, and every
-- element is a byte.
pub encrypt_threshold_bytes :
    (t : ℤ) (k : Option PublicKey)
    → (length (encrypt_threshold t k) ≡ 64)
      × (drop 48 (encrypt_threshold t k) ≡ stub_tag)
      × (take 40 (drop 8 (encrypt_threshold t k)) ≡ replicate 40 0)
      × All IsByte (encrypt_threshold t k)
unfolding encrypt_threshold le_bytes IsByte
encrypt_threshold_bytes t k = (refl, refl, refl, omega arith)

-- Reading a packed threshold back succeeds, and gives the threshold modulo 2^64.
pub test_decrypt_placeholder-encrypt_threshold :
    (t : ℤ) (k : Option PublicKey)
    → test_decrypt_placeholder (encrypt_threshold t k) ≡ ok (to_biguint64 t)
unfolding encrypt_threshold test_decrypt_placeholder le_bytes
test_decrypt_placeholder-encrypt_threshold t k =
    ap ok (of_le_bytes-le_bytes 8 (to_biguint64 t) (to_biguint64-lt t))
