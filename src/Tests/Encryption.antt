-- ===== src/Tests/Encryption.antt =====
-- The packing of a threshold, and the hash of a policy.
use risk_claw_sol.Prelude.{◌≡◌, refl, ◌++◌, replicate, none}
use risk_claw_sol.Prelude.Int.{pos}
use risk_claw_sol.Errors.{ok}
use risk_claw_sol.Encrypt.{encrypt_threshold, test_decrypt_placeholder}
use risk_claw_sol.Encrypt.Packing.{test_decrypt_placeholder-encrypt_threshold}
use risk_claw_sol.Programs.RiskPolicy.{hash_of}
use risk_claw_sol.Programs.RiskPolicy.Hash.{xor_bytes, hash_of_blocks}

test_decrypt_placeholder-encrypt_threshold_example :
    test_decrypt_placeholder (encrypt_threshold (pos 9000) none) ≡ ok 9000
test_decrypt_placeholder-encrypt_threshold_example =
    test_decrypt_placeholder-encrypt_threshold (pos 9000) none

hash_of_blocks_example :
    hash_of (replicate 32 3 ++ replicate 32 5) (replicate 32 0)
    ≡ xor_bytes
        (xor_bytes (xor_bytes (replicate 32 0) (replicate 32 3)) (replicate 32 5))
        (replicate 32 0)
hash_of_blocks_example =
    hash_of_blocks (replicate 32 3) (replicate 32 5) (replicate 32 0) refl refl refl
