-- ===== src/Crypto/Error.antt =====
-- shawncore-pq-crypto/src/error.rs.
use shawn_core_libraries.Base.{Result}

pub data CryptoError : Type 0 where
  invalid_state invalid_length hkdf_error verification_failed : CryptoError
  entropy_starvation entropy_busy key_confirmation_failed : CryptoError

abbrev pub Outcome : Type 0 → Type 0
Outcome A = Result CryptoError A
