-- ===== src/Encrypt.antt =====
-- packages/onchain/src/encrypt.ts: the placeholder packing of a threshold into 64 bytes, with the
-- typed-array operations of JavaScript that it uses.
mod Bytes
pub mod Packing
unfoldable pub use Bytes.{le_bytes, of_le_bytes}
pub use Bytes.{Uint8Array, new_uint8_array, set_bytes, to_biguint64, set_big_uint64, get_big_uint64}
use risk_claw_sol.Prelude.{ℕ, List, codes, length, ◌==◌, if◌then◌else◌, Option, none, some}
use risk_claw_sol.Prelude.Int.{ℤ}
use risk_claw_sol.Types.{PublicKey}
use risk_claw_sol.Errors.{Outcome, ok, throws, error}

-- `MXE_CLUSTER_PUBKEY`, null until the cluster is deployed.
abbrev pub mxe_cluster_pubkey : Option PublicKey
mxe_cluster_pubkey = none

abbrev pub stub_tag : List ℕ
stub_tag = codes "RISKCLAW_V1_STUB"

-- `encryptThreshold`
unfoldable pub encrypt_threshold : ℤ → Option PublicKey → Uint8Array
encrypt_threshold plaintext _ =
    let out = new_uint8_array 64 in
    let packed = set_big_uint64 out 0 (to_biguint64 plaintext) in set_bytes packed stub_tag 48

-- `_testDecryptPlaceholder`
unfoldable pub test_decrypt_placeholder : Uint8Array → Outcome ℕ
test_decrypt_placeholder ciphertext =
    if length ciphertext == 64
    then ok (get_big_uint64 ciphertext 0)
    else throws (error "expected 64-byte ciphertext")
