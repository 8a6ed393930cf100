-- ===== src/Crypto/Auth.antt =====
-- shawncore-pq-crypto/src/auth_handshake.rs: the encodings of the authenticated handshake.
pub mod Unambiguous
use shawn_core_libraries.Base.{
  ℕ, ◌+◌, ◌-◌, ◌^◌, Bool, ok, err, if◌then◌else◌, ltb, List, [], ◌∷◌, ◌++◌, length, Bytes,
}
use shawn_core_libraries.Base.Encoding.{to_be_bytes}
use shawn_core_libraries.Crypto.Error.{Outcome, invalid_length}
use shawn_core_libraries.Crypto.Primitives.{Primitives}
use shawn_core_libraries.Crypto.Aead.{hmac_sha384, verify_tag_constant_time}
use shawn_core_libraries.Crypto.Kdf.{codes}

abbrev pub auth_protocol_version : ℕ
auth_protocol_version = 2

abbrev pub auth_suite : Bytes
auth_suite = codes "ML-KEM-1024+X25519;HKDF-SHA384;ChaCha20+HMAC-SHA384;ML-DSA-87;HMAC-SHA384-KC"

abbrev pub context_encapsulating_side : Bytes
context_encapsulating_side = codes "ShawnCore-auth-v2 encapsulating side"

abbrev pub context_keygen_side : Bytes
context_keygen_side = codes "ShawnCore-auth-v2 key-generating side"

abbrev pub confirm_label_encapsulating_side : Bytes
confirm_label_encapsulating_side = codes "ShawnCore-auth-v2 confirm encapsulating side"

abbrev pub confirm_label_keygen_side : Bytes
confirm_label_keygen_side = codes "ShawnCore-auth-v2 confirm key-generating side"

abbrev pub auth_hash_len : ℕ
auth_hash_len = 48

abbrev pub confirmation_key_len : ℕ
confirmation_key_len = 48

-- The parts that a hasher is updated with, in order.
abbrev pub concat : List Bytes → Bytes
concat [] = []
concat (part ∷ parts) = part ++ concat parts

-- What `handshake_binding` hashes.
unfoldable pub binding_input : (ek x25519_pk keygen_id encapsulator_id app_info : Bytes) → Bytes
binding_input ek x25519_pk keygen_id encapsulator_id app_info = concat (
    codes "ShawnCore-auth-v2 binding"
    ∷ (auth_protocol_version ∷ [])
    ∷ to_be_bytes 2 (length auth_suite)
    ∷ auth_suite
    ∷ ek
    ∷ x25519_pk
    ∷ keygen_id
    ∷ encapsulator_id
    ∷ to_be_bytes 4 (length app_info)
    ∷ app_info
    ∷ [])

module _ (p : Primitives) where
  unfoldable pub sha384 : List Bytes → Bytes
  sha384 parts = p.sha384 (concat parts)

  unfoldable pub identity_fingerprint : (verifying_key : Bytes) → Bytes
  unfolding sha384
  identity_fingerprint verifying_key =
      sha384 (codes "ShawnCore-auth-v2 identity" ∷ p.ml_dsa_encode verifying_key ∷ [])

  unfoldable pub handshake_binding :
      (keygen_ml_kem_pk keygen_x25519_pk keygen_identity encapsulator_identity app_info : Bytes)
      → Outcome Bytes
  unfolding binding_input
  handshake_binding keygen_ml_kem_pk keygen_x25519_pk keygen_identity encapsulator_identity
        app_info =
      if ltb (2 ^ 32 - 1) (length app_info)
      then err invalid_length
      else ok (
          p.sha384 (
            binding_input (p.ml_kem_to_bytes keygen_ml_kem_pk) keygen_x25519_pk keygen_identity
              encapsulator_identity app_info))

  unfoldable pub transcript_hash : (binding ciphertext encapsulator_x25519_pk : Bytes) → Bytes
  unfolding sha384
  transcript_hash binding ciphertext encapsulator_x25519_pk =
      sha384
        (codes "ShawnCore-auth-v2 transcript" ∷ binding ∷ ciphertext ∷ encapsulator_x25519_pk ∷ [])

  unfoldable pub encapsulator_digest : (transcript encapsulator_tag : Bytes) → Bytes
  unfolding sha384
  encapsulator_digest transcript encapsulator_tag =
      sha384 (codes "ShawnCore-auth-v2 encapsulator digest" ∷ transcript ∷ encapsulator_tag ∷ [])

  unfoldable pub keygen_digest : (encapsulator_digest keygen_tag : Bytes) → Bytes
  unfolding sha384
  keygen_digest digest keygen_tag =
      sha384 (codes "ShawnCore-auth-v2 key-generator digest" ∷ digest ∷ keygen_tag ∷ [])

  -- The message buffer has 128 bytes.
  unfoldable pub confirmation_tag : (key label digest : Bytes) → Outcome Bytes
  unfolding hmac_sha384
  confirmation_tag key label digest =
      if ltb 128 (length label + auth_hash_len)
      then err invalid_length
      else hmac_sha384 p key (label ++ digest)

  unfoldable pub confirmation_tags_equal : (expected presented : Bytes) → Bool
  unfolding verify_tag_constant_time
  confirmation_tags_equal expected presented = verify_tag_constant_time p expected presented
