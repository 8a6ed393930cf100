-- ===== src/Crypto/Aead/RoundTrip.antt =====
-- Encryption and decryption of aead_wrapper.rs together.
use shawn_core_libraries.Base.{
  ◌≤◌, ◌≡◌, Option, some, ok, length, Bytes, arith, inl, inr, Option-cases,
}
use shawn_core_libraries.Crypto.Primitives.{Primitives, ComparesBytes, IsStreamCipher}
use shawn_core_libraries.Crypto.Aead.{aead_encrypt, aead_decrypt, mac_input, chacha20_max_bytes}

module _ (p : Primitives) where
  -- What a successful encryption leaves in its buffers.
  pub record Encrypted (enc_key mac_key nonce aad plaintext ciphertext tag : Bytes) : Type 0 where
    pub apply : Bytes → Option Bytes
    pub mac : Bytes → Bytes
    pub cipher : p.chacha20 enc_key nonce ≡ some apply
    pub keyed : p.hmac_sha384 mac_key ≡ some mac
    pub applied : apply plaintext ≡ some ciphertext
    pub tagged : tag ≡ mac (mac_input p nonce aad ciphertext)
    pub fits : length plaintext ≤ chacha20_max_bytes

  pub aead_encrypt-Encrypted :
      (enc_key mac_key nonce aad plaintext out tag : Bytes) {c t : Bytes}
      → aead_encrypt p enc_key mac_key nonce aad plaintext out tag ≡ (ok tt, c, t)
      → Encrypted enc_key mac_key nonce aad plaintext c t
  unfolding aead_encrypt
  aead_encrypt-Encrypted enc_key mac_key nonce aad plaintext out tag h =
      elim (Option-cases (p.chacha20 enc_key nonce)) [
        | inl no_cipher ↦ ground arith
        | inr (apply, cipher) ↦ elim (Option-cases (apply plaintext)) [
          | inl refused ↦ ground arith
          | inr (encrypted, applied) ↦ elim (Option-cases (p.hmac_sha384 mac_key)) [
            | inl no_key ↦ ground arith
            | inr (mac, keyed) ↦ record {
              apply = apply;
              mac = mac;
              cipher = cipher;
              keyed = keyed;
              applied = ground arith;
              tagged = ground arith;
              fits = ground arith;
            }
          ]
        ]
      ]

  -- With a comparison and a cipher that keep their laws: what `aead_encrypt` seals, `aead_decrypt`
  -- under the same keys, nonce and associated data opens into any buffer of the right length, and
  -- gives back the plaintext.
  pub aead_decrypt-aead_encrypt :
      (enc_key mac_key nonce aad plaintext out tag buffer : Bytes) {c t : Bytes}
      → ComparesBytes p
      → IsStreamCipher p
      → aead_encrypt p enc_key mac_key nonce aad plaintext out tag ≡ (ok tt, c, t)
      → length buffer ≡ length plaintext
      → aead_decrypt p enc_key mac_key nonce aad c t buffer ≡ (ok tt, plaintext)
  unfolding aead_decrypt
  aead_decrypt-aead_encrypt enc_key mac_key nonce aad plaintext out tag buffer {c} {t} eq cipher h
        l =
      ground (
        arith,
        e.cipher,
        e.keyed,
        e.tagged,
        e.fits,
        cipher.length_kept enc_key nonce plaintext e.cipher e.applied,
        cipher.involution enc_key nonce plaintext e.cipher e.applied,
        (eq t (e.mac (mac_input p nonce aad c))).1,
      )
    where
      e : Encrypted enc_key mac_key nonce aad plaintext c t
      e = aead_encrypt-Encrypted enc_key mac_key nonce aad plaintext out tag h

  -- What a successful decryption has found.
  pub record Decrypted (enc_key mac_key nonce aad ciphertext tag plaintext : Bytes) : Type 0 where
    pub apply : Bytes → Option Bytes
    pub mac : Bytes → Bytes
    pub cipher : p.chacha20 enc_key nonce ≡ some apply
    pub keyed : p.hmac_sha384 mac_key ≡ some mac
    pub applied : apply ciphertext ≡ some plaintext
    pub tagged : tag ≡ mac (mac_input p nonce aad ciphertext)

  pub aead_decrypt-Decrypted :
      (enc_key mac_key nonce aad ciphertext tag buffer : Bytes) {plaintext : Bytes}
      → ComparesBytes p
      → aead_decrypt p enc_key mac_key nonce aad ciphertext tag buffer ≡ (ok tt, plaintext)
      → Decrypted enc_key mac_key nonce aad ciphertext tag plaintext
  unfolding aead_decrypt
  aead_decrypt-Decrypted enc_key mac_key nonce aad ciphertext tag buffer eq h =
      elim (Option-cases (p.hmac_sha384 mac_key)) [
        | inl no_key ↦ absurd (ground arith)
        | inr (mac, keyed) ↦ elim (Option-cases (p.chacha20 enc_key nonce)) [
          | inl no_cipher ↦ absurd (ground arith)
          | inr (apply, cipher) ↦ elim (Option-cases (apply ciphertext)) [
            | inl refused ↦ absurd (ground arith)
            | inr (opened, applied) ↦ record {
              apply = apply;
              mac = mac;
              cipher = cipher;
              keyed = keyed;
              applied = ground arith;
              tagged = ground (arith, (eq tag (mac (mac_input p nonce aad ciphertext))).0);
            }
          ]
        ]
      ]
