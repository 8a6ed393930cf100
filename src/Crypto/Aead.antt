-- ===== src/Crypto/Aead.antt =====
-- shawncore-pq-crypto/src/aead_wrapper.rs: HMAC and the Encrypt-then-MAC construction over
-- ChaCha20. A function that writes buffers returns their contents beside its result.
pub mod RoundTrip
pub mod InPlace
pub mod Unambiguous
use shawn_core_libraries.Base.{
  ℕ, ◌*◌, ◌-◌, ◌^◌, Bool, true, false, not, ◌||◌, Option, none, some, ok, err, ok_or, ◌>>=◌,
  if◌then◌else◌, ltb, ◌==◌, ◌++◌, length, replicate, Bytes,
}
use shawn_core_libraries.Base.Encoding.{to_be_bytes}
use shawn_core_libraries.Crypto.Error.{
  Outcome, invalid_state, invalid_length, hkdf_error, verification_failed,
}
use shawn_core_libraries.Crypto.Primitives.{Primitives}

-- `u32::MAX as u64 * 64`.
abbrev pub chacha20_max_bytes : ℕ
chacha20_max_bytes = (2 ^ 32 - 1) * 64

-- `secure_zeroize` of a buffer.
abbrev pub zeroed : Bytes → Bytes
zeroed buffer = replicate (length buffer) 0

module _ (p : Primitives) where
  unfoldable pub verify_tag_constant_time : Bytes → Bytes → Bool
  verify_tag_constant_time a b = p.ct_eq a b

  unfoldable pub hmac_sha384 : (key message : Bytes) → Outcome Bytes
  hmac_sha384 key message = do mac ← ok_or (p.hmac_sha384 key) invalid_state; ok (mac message)

  -- What the MAC covers: two 64-bit big-endian lengths, the nonce, the data and the ciphertext.
  unfoldable pub mac_input : (nonce aad ciphertext : Bytes) → Bytes
  mac_input nonce aad ciphertext =
      to_be_bytes 8 (length aad)
      ++ (to_be_bytes 8 (length ciphertext) ++ (nonce ++ (aad ++ ciphertext)))

  -- The result, the ciphertext buffer and the tag buffer. The tag buffer is written last.
  unfoldable pub aead_encrypt :
      (enc_key mac_key nonce aad plaintext ciphertext out_mac : Bytes)
      → Outcome (Unit {0}) × Bytes × Bytes
  unfolding mac_input
  aead_encrypt enc_key mac_key nonce aad plaintext ciphertext out_mac =
      if not (length plaintext == length ciphertext) || ltb chacha20_max_bytes (length plaintext)
      then (err invalid_length, ciphertext, out_mac)
      else elim (p.chacha20 enc_key nonce) [
        | none ↦ (err invalid_state, plaintext, out_mac)
        | some apply ↦ elim (apply plaintext) [
          | none ↦ (err invalid_length, zeroed plaintext, out_mac)
          | some encrypted ↦ elim (p.hmac_sha384 mac_key) [
            | none ↦ (err invalid_state, encrypted, out_mac)
            | some mac ↦ (ok tt, encrypted, mac (mac_input nonce aad encrypted))
          ]
        ]
      ]

  -- The result and the plaintext buffer, which holds nothing of the packet unless the result is
  -- `ok`, but for a cipher that cannot be built.
  unfoldable pub aead_decrypt :
      (enc_key mac_key nonce aad ciphertext mac plaintext : Bytes) → Outcome (Unit {0}) × Bytes
  unfolding mac_input verify_tag_constant_time
  aead_decrypt enc_key mac_key nonce aad ciphertext mac plaintext =
      if not (length plaintext == length ciphertext) || ltb chacha20_max_bytes (length ciphertext)
      then (err invalid_length, plaintext)
      else elim (p.hmac_sha384 mac_key) [
        | none ↦ (err invalid_state, plaintext)
        | some expected ↦
            if not (verify_tag_constant_time mac (expected (mac_input nonce aad ciphertext)))
            then (err verification_failed, zeroed plaintext)
            else elim (p.chacha20 enc_key nonce) [
              | none ↦ (err invalid_state, ciphertext)
              | some apply ↦ elim (apply ciphertext) [
                | none ↦ (err invalid_length, zeroed ciphertext)
                | some decrypted ↦ (ok tt, decrypted)
              ]
            ]
      ]
