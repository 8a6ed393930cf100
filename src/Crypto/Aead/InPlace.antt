-- ===== src/Crypto/Aead/InPlace.antt =====
-- The in-place variants of aead_wrapper.rs, and hkdf_expand_sha384.
use shawn_core_libraries.Base.{
  true, not, none, some, ok, err, if◌then◌else◌, ltb, ◌==◌, length, Bytes, ◌≡◌, refl, arith,
}
use shawn_core_libraries.Crypto.Error.{
  Outcome, invalid_state, invalid_length, hkdf_error, verification_failed,
}
use shawn_core_libraries.Crypto.Primitives.{Primitives}
use shawn_core_libraries.Crypto.Aead.{
  chacha20_max_bytes, zeroed, verify_tag_constant_time, mac_input, aead_encrypt, aead_decrypt,
}

module _ (p : Primitives) where
  -- The result and the output buffer.
  unfoldable pub hkdf_expand_sha384 : (prk info out : Bytes) → Outcome (Unit {0}) × Bytes
  hkdf_expand_sha384 prk info out = elim (p.hkdf_from_prk prk) [
    | none ↦ (err invalid_length, out)
    | some expand ↦ elim (expand info (length out)) [
      | none ↦ (err hkdf_error, zeroed out)
      | some expanded ↦ (ok tt, expanded)
    ]
  ]

  -- The result, the buffer and the tag buffer.
  unfoldable pub aead_encrypt_in_place :
      (enc_key mac_key nonce aad buffer out_mac : Bytes) → Outcome (Unit {0}) × Bytes × Bytes
  unfolding mac_input
  aead_encrypt_in_place enc_key mac_key nonce aad buffer out_mac =
      if ltb chacha20_max_bytes (length buffer)
      then (err invalid_length, buffer, out_mac)
      else elim (p.chacha20 enc_key nonce) [
        | none ↦ (err invalid_state, buffer, out_mac)
        | some apply ↦ elim (apply buffer) [
          | none ↦ (err invalid_length, zeroed buffer, out_mac)
          | some encrypted ↦ elim (p.hmac_sha384 mac_key) [
            | none ↦ (err invalid_state, encrypted, out_mac)
            | some mac ↦ (ok tt, encrypted, mac (mac_input p nonce aad encrypted))
          ]
        ]
      ]

  -- The result and the buffer.
  unfoldable pub aead_decrypt_in_place :
      (enc_key mac_key nonce aad buffer mac : Bytes) → Outcome (Unit {0}) × Bytes
  unfolding mac_input verify_tag_constant_time
  aead_decrypt_in_place enc_key mac_key nonce aad buffer mac =
      if ltb chacha20_max_bytes (length buffer)
      then (err invalid_length, buffer)
      else elim (p.hmac_sha384 mac_key) [
        | none ↦ (err invalid_state, buffer)
        | some expected ↦
            if not (verify_tag_constant_time p mac (expected (mac_input p nonce aad buffer)))
            then (err verification_failed, zeroed buffer)
            else elim (p.chacha20 enc_key nonce) [
              | none ↦ (err invalid_state, buffer)
              | some apply ↦ elim (apply buffer) [
                | none ↦ (err invalid_length, zeroed buffer)
                | some decrypted ↦ (ok tt, decrypted)
              ]
            ]
      ]

  same_length : (buffer : Bytes) → length buffer == length buffer ≡ true
  same_length buffer = ground arith

  -- Working in place is working with a second buffer that starts as a copy: on every path, the
  -- failures included, both give the same result and leave the same bytes.
  pub in_place-two_buffers :
      (enc_key mac_key nonce aad buffer mac out_mac : Bytes)
      → (aead_encrypt_in_place enc_key mac_key nonce aad buffer out_mac
          ≡ aead_encrypt p enc_key mac_key nonce aad buffer buffer out_mac)
        × (aead_decrypt_in_place enc_key mac_key nonce aad buffer mac
            ≡ aead_decrypt p enc_key mac_key nonce aad buffer mac buffer)
  unfolding aead_encrypt_in_place aead_decrypt_in_place aead_encrypt aead_decrypt
  in_place-two_buffers enc_key mac_key nonce aad buffer mac out_mac =
      rw (same_length buffer) (refl, refl)
