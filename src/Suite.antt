-- ===== src/Suite.antt =====
-- crates/filesec-core/src/suite.rs, with the `pqc` feature on: the algorithm suites, and the bulk
-- ciphers of crates/filesec-core/src/aead.rs that they select.
pub mod Laws
use file_sec.Prelude.{ℕ, ◌-◌, Bool, true, false, ◌==◌, if◌then◌else◌}
use file_sec.Errors.{Result, ok, err, unsupported_suite}

pub data AeadAlg : Type 0 where
  xchacha20_poly1305 aes256_gcm : AeadAlg

unfoldable pub nonce_len : AeadAlg → ℕ
nonce_len xchacha20_poly1305 = 24
nonce_len aes256_gcm = 12

-- The five bytes of a nonce that STREAM keeps for its counter and its last-chunk flag.
abbrev pub stream_overhead : ℕ
stream_overhead = 5

unfoldable pub stream_nonce_len : AeadAlg → ℕ
unfolding nonce_len
stream_nonce_len alg = nonce_len alg - stream_overhead

pub data SuiteId : Type 0 where
  classic aes256 hybrid : SuiteId

unfoldable pub to_u16 : SuiteId → ℕ
to_u16 classic = 0x0001
to_u16 aes256 = 0x0002
to_u16 hybrid = 0x0101

unfoldable pub from_u16 : ℕ → Result SuiteId
from_u16 value =
    if value == 0x0001
    then ok classic
    else if value == 0x0002
    then ok aes256
    else if value == 0x0101
    then ok hybrid
    else err (unsupported_suite value)

unfoldable pub aead_alg : SuiteId → AeadAlg
aead_alg classic = xchacha20_poly1305
aead_alg aes256 = aes256_gcm
aead_alg hybrid = xchacha20_poly1305

unfoldable pub is_hybrid : SuiteId → Bool
is_hybrid classic = false
is_hybrid aes256 = false
is_hybrid hybrid = true
