-- ===== src/Crypto/Wrappers.antt =====
-- shawncore-pq-crypto/src/ml_kem_wrapper.rs, x25519_wrapper.rs and ml_dsa_wrapper.rs: what the crate
-- adds to the primitives.
use shawn_core_libraries.Base.{
  ℕ, not, none, some, ok, err, ok_or, if◌then◌else◌, ◌==◌, length, Bytes,
}
use shawn_core_libraries.Base.Encoding.{all_equal}
use shawn_core_libraries.Crypto.Error.{Outcome, invalid_state, invalid_length, verification_failed}
use shawn_core_libraries.Crypto.Primitives.{Primitives}

abbrev pub ml_dsa_signature_bytes : ℕ
ml_dsa_signature_bytes = 4627

abbrev pub ml_kem_publickey_bytes : ℕ
ml_kem_publickey_bytes = 1568

abbrev pub ml_dsa_publickey_bytes : ℕ
ml_dsa_publickey_bytes = 2592

module _ (p : Primitives) where
  -- `PublicKey1024::to_bytes` and `from_bytes`, `PublicKey87::to_bytes` and `from_bytes`.
  unfoldable pub public_key_1024_to_bytes : (key : Bytes) → Bytes
  public_key_1024_to_bytes key = p.ml_kem_to_bytes key

  unfoldable pub public_key_1024_from_bytes : (bytes : Bytes) → Outcome Bytes
  public_key_1024_from_bytes bytes =
      if not (length bytes == ml_kem_publickey_bytes)
      then err invalid_length
      else ok_or (p.ml_kem_key_of bytes) invalid_state

  unfoldable pub public_key_87_to_bytes : (key : Bytes) → Bytes
  public_key_87_to_bytes key = p.ml_dsa_encode key

  unfoldable pub public_key_87_from_bytes : (bytes : Bytes) → Outcome Bytes
  public_key_87_from_bytes bytes =
      if not (length bytes == ml_dsa_publickey_bytes)
      then err invalid_length
      else ok (p.ml_dsa_decode bytes)

  -- The verifying and the signing key.
  unfoldable pub ml_dsa_keygen : (seed : Bytes) → Outcome (Bytes × Bytes)
  ml_dsa_keygen seed = let sk = p.ml_dsa_from_seed seed in ok (p.ml_dsa_verifying_key sk, sk)

  unfoldable pub ml_dsa_sign : (sk msg : Bytes) → Outcome Bytes
  ml_dsa_sign sk msg =
      let signature = p.ml_dsa_sign_plain sk msg in
      if not (length signature == ml_dsa_signature_bytes) then err invalid_length else ok signature

  unfoldable pub ml_dsa_verify : (pk msg sig : Bytes) → Outcome (Unit {0})
  ml_dsa_verify pk msg sig = elim (p.ml_dsa_decode_signature sig) [
    | none ↦ err verification_failed
    | some signature ↦
        if p.ml_dsa_verify_plain pk msg signature then ok tt else err verification_failed
  ]

  -- The public key and the decapsulation key.
  unfoldable pub ml_kem_keygen : (entropy : Bytes) → Outcome (Bytes × Bytes)
  ml_kem_keygen entropy =
      let dk = p.ml_kem_from_seed entropy in ok (p.ml_kem_encapsulation_key dk, dk)

  -- The shared secret and the ciphertext.
  unfoldable pub ml_kem_encapsulate : (ek entropy : Bytes) → Outcome (Bytes × Bytes)
  ml_kem_encapsulate ek entropy = let (ct, ss) = p.ml_kem_encapsulate ek entropy in ok (ss, ct)

  unfoldable pub ml_kem_decapsulate : (dk ct : Bytes) → Outcome Bytes
  ml_kem_decapsulate dk ct = ok (p.ml_kem_decapsulate dk ct)

  -- The public and the secret key.
  unfoldable pub x25519_keygen : (rng_bytes : Bytes) → Bytes × Bytes
  x25519_keygen rng_bytes = (p.x25519_public rng_bytes, p.x25519_secret rng_bytes)

  unfoldable pub x25519_diffie_hellman : (secret their_public : Bytes) → Outcome Bytes
  x25519_diffie_hellman secret their_public =
      if all_equal 0 their_public
      then err invalid_state
      else if not (p.x25519_was_contributory (p.x25519_shared secret their_public))
      then err invalid_state
      else ok (p.x25519_shared secret their_public)

  unfoldable pub ml_dsa_sign_with_context : (sk msg context : Bytes) → Outcome Bytes
  ml_dsa_sign_with_context sk msg context = elim (p.ml_dsa_sign sk msg context) [
    | none ↦ err invalid_length
    | some signature ↦
        if not (length signature == ml_dsa_signature_bytes)
        then err invalid_length
        else ok signature
  ]

  unfoldable pub ml_dsa_verify_with_context : (pk msg context sig : Bytes) → Outcome (Unit {0})
  ml_dsa_verify_with_context pk msg context sig = elim (p.ml_dsa_decode_signature sig) [
    | none ↦ err verification_failed
    | some signature ↦
        if p.ml_dsa_verify pk msg context signature then ok tt else err verification_failed
  ]
