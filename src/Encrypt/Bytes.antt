-- ===== src/Encrypt/Bytes.antt =====
-- `Uint8Array`, `DataView.setBigUint64` and `getBigUint64` (little endian) as functions on lists of
-- bytes. All offsets of the source lie inside the array, so no `RangeError` is modelled.
use risk_claw_sol.Prelude.{
  ℕ, zero, suc, ◌+◌, ◌-◌, ◌*◌, ◌/◌, ◌%◌, ◌^◌, List, [], ◌∷◌, ◌++◌, length, take, drop, replicate,
}
use risk_claw_sol.Prelude.Int.{ℤ, pos, negsuc}

abbrev pub Uint8Array : Type 0
Uint8Array = List ℕ

abbrev pub new_uint8_array : ℕ → Uint8Array
new_uint8_array n = replicate n 0

-- `a.set(src, offset)`
abbrev pub set_bytes : Uint8Array → Uint8Array → ℕ → Uint8Array
set_bytes a src offset = take offset a ++ (src ++ drop (offset + length src) a)

-- The conversion of a `bigint` to 64 bits, modulo 2^64.
abbrev pub to_biguint64 : ℤ → ℕ
to_biguint64 (pos n) = n % 2 ^ 64
to_biguint64 (negsuc n) = 2 ^ 64 - 1 - n % 2 ^ 64

-- The `k` low bytes of a number, the lowest first.
unfoldable pub le_bytes : ℕ → ℕ → List ℕ
le_bytes zero n = []
le_bytes (suc k) n = (n % 256) ∷ le_bytes k (n / 256)

unfoldable pub of_le_bytes : List ℕ → ℕ
of_le_bytes [] = 0
of_le_bytes (b ∷ bs) = b + 256 * of_le_bytes bs

-- `view.setBigUint64(offset, n, true)`
abbrev pub set_big_uint64 : Uint8Array → ℕ → ℕ → Uint8Array
set_big_uint64 a offset n = set_bytes a (le_bytes 8 n) offset

-- `view.getBigUint64(offset, true)`
abbrev pub get_big_uint64 : Uint8Array → ℕ → ℕ
get_big_uint64 a offset = of_le_bytes (take 8 (drop offset a))
