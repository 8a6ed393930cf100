-- ===== src/Crypto/Ffi/Opening.antt =====
-- shawncore_crypto_session_manager_decrypt_packet of ffi.rs: what it reads and writes, and how it
-- meets the encrypting call.
use shawn_core_libraries.Base.{
  ℕ, ◌≡◌, refl, sym, ◌∙◌, take, drop, false, length, length-replicate, Bytes, Option-cases, inl,
  inr, arith,
}
use shawn_core_libraries.Crypto.Primitives.{Primitives, IsStreamCipher}
use shawn_core_libraries.Crypto.Aead.{aead_decrypt}
use shawn_core_libraries.Crypto.Session.State.{SessionManager}
use shawn_core_libraries.Crypto.Session.Packet.{decrypt_packet}
use shawn_core_libraries.Crypto.Ffi.{status, Layout, Host, read}
use shawn_core_libraries.Crypto.Ffi.Ranges.{Disjoint, Disjoint-sym, ranges_overlap-Disjoint}
use shawn_core_libraries.Crypto.Ffi.Memory.{length-read, read-write, read-write_other}
use shawn_core_libraries.Crypto.Ffi.Packets.{
  session_decrypt_buffers_overlap, decrypt_rejects, decrypted, session_manager_decrypt_packet,
}

module _ (p : Primitives) where
  -- The buffer keeps its length.
  length-aead_decrypt :
      (enc_key mac_key nonce aad ciphertext mac plaintext : Bytes)
      → IsStreamCipher p
      → length plaintext ≡ length ciphertext
      → length (aead_decrypt p enc_key mac_key nonce aad ciphertext mac plaintext).1
        ≡ length plaintext
  unfolding aead_decrypt
  length-aead_decrypt enc_key mac_key nonce aad ciphertext mac plaintext cipher same =
      elim (Option-cases (p.hmac_sha384 mac_key)) [
        | inl no_key ↦ ground arith
        | inr (expected, keyed) ↦ elim (Option-cases (p.chacha20 enc_key nonce)) [
          | inl no_cipher ↦ ground (arith, length-replicate {A = ℕ} (length plaintext) 0)
          | inr (apply, built) ↦ elim (Option-cases (apply ciphertext)) [
            | inl refused ↦ ground (
              arith,
              length-replicate {A = ℕ} (length plaintext) 0,
              length-replicate {A = ℕ} (length ciphertext) 0,
            )
            | inr (opened, applied) ↦ ground (
              arith,
              length-replicate {A = ℕ} (length plaintext) 0,
              cipher.length_kept enc_key nonce ciphertext built applied,
            )
          ]
        ]
      ]

  length-decrypt_packet :
      (s : SessionManager) (aad ciphertext nonce tag plaintext : Bytes)
      → IsStreamCipher p
      → length plaintext ≡ length ciphertext
      → length (decrypt_packet p s aad ciphertext nonce tag plaintext).2 ≡ length plaintext
  unfolding decrypt_packet
  length-decrypt_packet s aad ciphertext nonce tag plaintext cipher same =
      elim (Option-cases s.rx_key) [
        | inl no_key ↦ ground arith
        | inr (key, has_key) ↦ ground (
          arith,
          length-aead_decrypt (take 32 key) (drop 32 key) nonce aad ciphertext tag plaintext cipher
              same,
        )
      ]

module _ (layout : Layout) (p : Primitives) where
  length-decrypted :
      (host : Host) (manager aad aad_len ciphertext data_len nonce tag plaintext : ℕ)
      → IsStreamCipher p
      → length
          (decrypted layout p host manager aad aad_len ciphertext data_len nonce tag plaintext).2
        ≡ data_len
  length-decrypted host manager aad aad_len ciphertext data_len nonce tag plaintext cipher =
      length-decrypt_packet p (host.managers manager) (read host.memory aad aad_len)
        (read host.memory ciphertext data_len) (read host.memory nonce 12) (read host.memory tag 48)
        (read host.memory plaintext data_len) cipher
        (length-read host.memory plaintext data_len
          ∙ sym (length-read host.memory ciphertext data_len))
      ∙ length-read host.memory plaintext data_len

  record Separate (manager aad aad_len ciphertext data_len nonce tag plaintext : ℕ) : Type 0 where
    plain_aad : Disjoint plaintext data_len aad aad_len
    plain_cipher : Disjoint plaintext data_len ciphertext data_len
    plain_nonce : Disjoint plaintext data_len nonce 12
    plain_tag : Disjoint plaintext data_len tag 48
    plain_manager : Disjoint plaintext data_len manager layout.manager_size

  accepted-Separate :
      (manager aad aad_len ciphertext data_len nonce tag plaintext : ℕ)
      → decrypt_rejects layout manager aad aad_len ciphertext data_len nonce tag plaintext ≡ false
      → Separate manager aad aad_len ciphertext data_len nonce tag plaintext
  unfolding decrypt_rejects session_decrypt_buffers_overlap
  accepted-Separate manager aad aad_len ciphertext data_len nonce tag plaintext h = record {
    plain_aad = ranges_overlap-Disjoint plaintext data_len aad aad_len (ground arith);
    plain_cipher = ranges_overlap-Disjoint plaintext data_len ciphertext data_len (ground arith);
    plain_nonce = ranges_overlap-Disjoint plaintext data_len nonce 12 (ground arith);
    plain_tag = ranges_overlap-Disjoint plaintext data_len tag 48 (ground arith);
    plain_manager =
        Disjoint-sym manager layout.manager_size plaintext data_len
          (ranges_overlap-Disjoint manager layout.manager_size plaintext data_len (ground arith));
  }

  -- With a cipher that keeps its laws: a call of shawncore_crypto_session_manager_decrypt_packet
  -- that passes the checks on its pointers answers as `decrypt_packet` does on the session and the
  -- slices that the pointers name; the slice of the plaintext then holds exactly the buffer that
  -- `decrypt_packet` returned, the associated data, the ciphertext, the nonce and the tag are as
  -- before, and the slice of the plaintext shares no address with the manager object.
  pub session_manager_decrypt_packet-decrypt_packet :
      (host : Host) (manager aad aad_len ciphertext data_len nonce tag plaintext : ℕ)
      → IsStreamCipher p
      → decrypt_rejects layout manager aad aad_len ciphertext data_len nonce tag plaintext ≡ false
      → let (code, host') =
          session_manager_decrypt_packet layout p host manager aad aad_len ciphertext data_len nonce
            tag plaintext in
        let (r, s, buffer) =
          decrypted layout p host manager aad aad_len ciphertext data_len nonce tag plaintext in
        (code ≡ status r)
        × (host'.managers manager ≡ s)
        × (read host'.memory plaintext data_len ≡ buffer)
        × (read host'.memory aad aad_len ≡ read host.memory aad aad_len)
        × (read host'.memory ciphertext data_len ≡ read host.memory ciphertext data_len)
        × (read host'.memory nonce 12 ≡ read host.memory nonce 12)
        × (read host'.memory tag 48 ≡ read host.memory tag 48)
        × Disjoint plaintext data_len manager layout.manager_size
  unfolding session_manager_decrypt_packet
  session_manager_decrypt_packet-decrypt_packet host manager aad aad_len ciphertext data_len nonce
        tag plaintext cipher accepted =
      let (r, s, buffer) =
        decrypted layout p host manager aad aad_len ciphertext data_len nonce tag plaintext in
      let size =
        length-decrypted host manager aad aad_len ciphertext data_len nonce tag plaintext cipher in
      let d =
        accepted-Separate manager aad aad_len ciphertext data_len nonce tag plaintext accepted in
      rw accepted (
        refl,
        ground arith,
        read-write host.memory plaintext data_len buffer size,
        read-write_other host.memory aad aad_len plaintext data_len buffer size d.plain_aad,
        read-write_other host.memory ciphertext data_len plaintext data_len buffer size
            d.plain_cipher,
        read-write_other host.memory nonce 12 plaintext data_len buffer size d.plain_nonce,
        read-write_other host.memory tag 48 plaintext data_len buffer size d.plain_tag,
        d.plain_manager,
      )
